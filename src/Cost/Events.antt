-- ===== src/Cost/Events.antt =====
-- The statements of internal/db/dbgen/cost_lifecycle.sql.go on the cost events and on the identity
-- ledger.
use dreamchat_image_platform.Common.{
  ℕ, ◌+◌, String, Bool, true, ◌&&◌, Option, none, some, List, [], ◌∷◌, ◌==◌, if◌then◌else◌, any_of,
}
use dreamchat_image_platform.Common.Int.{ℤ, pos, ◌+ℤ◌}
use dreamchat_image_platform.Common.Tables.{find_row, update_row}
use dreamchat_image_platform.Cost.{EventStatus, CostEvent, LedgerRow, Db}
use dreamchat_image_platform.Cost.Queries.{is_some_text, is_reported, job_key, ledger_key}

abbrev pub of_reservation : String → String → CostEvent → Bool
of_reservation job reservation e = e.job_id == job && is_some_text e.cost_reservation_id reservation

-- The columns that the UPDATE sets: where a provider reported, the event keeps its own actual.
abbrev pub stamped : Bool → ℕ → Option ℕ → EventStatus → CostEvent → CostEvent
stamped observed estimated actual status e = record e {
  estimated_cost = some estimated;
  actual_cost = if observed then e.actual_cost else actual;
  inferred = if observed then e.inferred else true;
  status = status;
}

-- The newest event of the reservation is stamped; `none` where it has no event.
unfoldable pub stamp_latest :
    Bool → String → String → ℕ → Option ℕ → EventStatus → List CostEvent → Option (List CostEvent)
stamp_latest observed job reservation estimated actual status [] = none
stamp_latest observed job reservation estimated actual status (e ∷ events) =
    let rest = stamp_latest observed job reservation estimated actual status events in
    if of_reservation job reservation e
    then some (stamped observed estimated actual status e ∷ events)
    else elim rest [ none ↦ none | some later ↦ some (e ∷ later) ]

unfoldable pub update_latest_job_cost_event :
    String → String → ℕ → Option ℕ → EventStatus → List CostEvent → Option (List CostEvent)
unfolding stamp_latest
update_latest_job_cost_event job reservation estimated actual status events =
    stamp_latest (any_of (is_reported job reservation) events) job reservation estimated actual
      status events

-- InsertFinalizerCostEvent
unfoldable pub insert_finalizer_cost_event :
    String → Option String → ℕ → Option ℕ → EventStatus → List CostEvent → List CostEvent
insert_finalizer_cost_event job reservation estimated actual status events =
    record {
      job_id = job;
      cost_reservation_id = reservation;
      estimated_cost = some estimated;
      actual_cost = actual;
      inferred = true;
      status = status;
    }
    ∷ events

-- INSERT … ON CONFLICT (visual_identity_id) DO UPDATE
add_to_ledger : String → ℕ → ℤ → String → List LedgerRow → List LedgerRow
add_to_ledger identity estimated actual currency rows = elim (find_row ledger_key identity rows) [
  | none ↦
      record {
        identity = identity;
        estimated_total = estimated;
        actual_total = actual;
        currency = currency;
      }
      ∷ rows
  | some old ↦
      update_row ledger_key identity
        (λ l. record l {
          estimated_total = l.estimated_total + estimated;
          actual_total = l.actual_total +ℤ actual;
          currency = currency;
        })
        rows
]

-- A job without an identity has no ledger row.
identity_of_job : String → Db → Option String
identity_of_job job db = elim (find_row job_key job db.jobs) [ none ↦ none | some j ↦ j.identity ]

unfoldable pub upsert_identity_cost_ledger_for_job : ℕ → ℕ → String → String → Db → Db
unfolding add_to_ledger identity_of_job
upsert_identity_cost_ledger_for_job estimated actual currency job db =
    elim (identity_of_job job db) [
      | none ↦ db
      | some identity ↦ record db {
        ledger = add_to_ledger identity estimated (pos actual) currency db.ledger;
      }
    ]

unfoldable pub upsert_identity_cost_ledger_actual_for_job : ℤ → String → String → Db → Db
unfolding add_to_ledger identity_of_job
upsert_identity_cost_ledger_actual_for_job delta currency job db = elim (identity_of_job job db) [
  | none ↦ db
  | some identity ↦ record db { ledger = add_to_ledger identity 0 delta currency db.ledger }
]
