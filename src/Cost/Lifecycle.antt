-- ===== src/Cost/Lifecycle.antt =====
-- The terminal lifecycle of internal/cost/cost.go: commit and release of a reservation, and the
-- reconciliation of what a provider reports later. Each function is the body of one transaction.
use dreamchat_image_platform.Common.{
  ℕ, String, Bool, true, false, not, ◌&&◌, ◌||◌, Option, none, some, List, [], ◌∷◌, ◌==◌, ◌!=◌,
  if◌then◌else◌, keep_if, nat_eq,
}
use dreamchat_image_platform.Common.Int.{ℤ, pos_part, neg_part, sub_ℕ, add_clamped}
use dreamchat_image_platform.Common.Tables.{find_row, update_row}
use dreamchat_image_platform.Cost.{
  Status, committed, released, EventStatus, event_succeeded, event_failed, Budget, Hold,
  Reservation, CostEvent, Db,
}
use dreamchat_image_platform.Cost.Queries.{
  budget_key, reservation_key, sum_reported_reservation_actual, amount_or_zero,
  commit_reservation_by_id, release_reservation_by_id, commit_reservation_for_job,
  release_reservation_for_job, list_reserved_budget_holds, commit_budget_hold, release_budget_hold,
  mark_budget_hold_status, set_generation_job_actual_cost_for_reservation,
  set_generation_job_actual_cost,
}
use dreamchat_image_platform.Cost.Events.{
  update_latest_job_cost_event, insert_finalizer_cost_event, upsert_identity_cost_ledger_for_job,
  upsert_identity_cost_ledger_actual_for_job,
}

pub data Target : Type 0 where
  commit release : Target

abbrev pub status_of : Target → Status
status_of commit = committed
status_of release = released

abbrev is_commit : Target → Bool
is_commit commit = true
is_commit release = false

abbrev pub is_known : Option ℕ → Bool
is_known none = false
is_known (some n) = true

-- The guarded UPDATE; `none` is the idempotent no-op. An empty reservation id means the job's current
-- reservation.
unfoldable pub close_reservation : Target → String → String → Db → Option (Reservation × Db)
close_reservation commit job id db =
    if id != "" then commit_reservation_by_id job id db else commit_reservation_for_job job db
close_reservation release job id db =
    if id != "" then release_reservation_by_id job id db else release_reservation_for_job job db

-- partialCharge and chargedActual
abbrev pub charges : Target → Option ℕ → Bool
charges target actual = is_commit target || not (is_commit target) && is_known actual

-- One round of the loop over the holds.
unfoldable pub settle_hold : Target → Option ℕ → Hold → Db → Db
settle_hold target actual h db = record db {
  budgets =
      if charges target actual
      then commit_budget_hold h.reserved_amount (amount_or_zero actual) h.cost_budget_id db.budgets
      else release_budget_hold h.reserved_amount h.cost_budget_id db.budgets;
  holds = mark_budget_hold_status (status_of target) h.id db.holds;
}

unfoldable pub settle_holds : Target → Option ℕ → List Hold → Db → Db
settle_holds target actual [] db = db
settle_holds target actual (h ∷ hs) db =
    settle_holds target actual hs (settle_hold target actual h db)

-- The job's actual cost and the identity's ledger, written only for a charge.
unfoldable pub record_charge : Target → String → Reservation → Db → Db
record_charge target job r db =
    if charges target r.actual_amount
    then upsert_identity_cost_ledger_for_job r.estimated_amount (amount_or_zero r.actual_amount)
        r.currency job
        (record db {
          jobs =
              if r.id != ""
              then set_generation_job_actual_cost_for_reservation r.actual_amount job r.id db.jobs
              else set_generation_job_actual_cost r.actual_amount job db.jobs;
        })
    else db

abbrev pub event_status_of : Target → EventStatus
event_status_of commit = event_succeeded
event_status_of release = event_failed

-- An empty reservation id is written as NULL, which no event matches.
unfoldable pub finalize_cost_event :
    String → String → ℕ → Option ℕ → EventStatus → List CostEvent → List CostEvent
finalize_cost_event job reservation estimated actual status events =
    if reservation != ""
    then (elim (update_latest_job_cost_event job reservation estimated actual status events) [
      | none ↦ insert_finalizer_cost_event job (some reservation) estimated actual status events
      | some stamped ↦ stamped
    ])
    else insert_finalizer_cost_event job none estimated actual status events

unfoldable pub close_event : Target → String → Reservation → Db → Db
close_event target job r db = record db {
  events =
      finalize_cost_event job r.id r.estimated_amount
        (if charges target r.actual_amount then r.actual_amount else none) (event_status_of target)
        db.events;
}

unfoldable pub settle : Target → String → Reservation × Db → Db
unfolding close_event
settle target job (r, db) = close_event target job r (
    record_charge target job r
      (settle_holds target r.actual_amount (list_reserved_budget_holds r.id db.holds) db))

unfoldable pub settle_closed : Target → String → Db → Option (Reservation × Db) → Db
unfolding settle
settle_closed target job db none = db
settle_closed target job db (some closed) = settle target job closed

-- finalizeInTxForReservation
unfoldable pub finalize : Target → String → String → Db → Db
unfolding settle_closed
finalize target job id db = settle_closed target job db (close_reservation target job id db)

-- GetTerminalReservationForReconciliation
abbrev pub is_terminal : Status → Bool
is_terminal committed = true
is_terminal released = true
is_terminal s = false

unfoldable pub get_terminal_reservation : String → String → Db → Option Reservation
get_terminal_reservation job id db = elim (find_row reservation_key id db.reservations) [
  | none ↦ none
  | some r ↦ if r.generation_job_id == job && is_terminal r.status then some r else none
]

unfoldable pub list_finalized_budget_holds : String → List Hold → List Hold
list_finalized_budget_holds reservation holds =
    keep_if (λ h. h.cost_reservation_id == reservation && is_terminal h.status) holds

unfoldable pub adjust_budget_spent : ℤ → String → List Budget → List Budget
adjust_budget_spent delta id budgets =
    update_row budget_key id (λ b. record b { spent_amount = add_clamped b.spent_amount delta })
      budgets

unfoldable pub adjust_budgets : ℤ → List Hold → List Budget → List Budget
adjust_budgets delta [] budgets = budgets
adjust_budgets delta (h ∷ hs) budgets =
    adjust_budgets delta hs (adjust_budget_spent delta h.cost_budget_id budgets)

-- ReconcileReservationActual: the row, and the signed difference to what was charged before.
unfoldable pub reconcile_reservation_actual : String → ℕ → Db → Db
reconcile_reservation_actual id actual db = record db {
  reservations =
      update_row reservation_key id (λ r. record r { actual_amount = some actual }) db.reservations;
}

abbrev pub is_zero : ℤ → Bool
is_zero d = nat_eq (pos_part d) 0 && nat_eq (neg_part d) 0

unfoldable pub apply_delta : ℤ → String → Reservation → Db → Db
apply_delta delta job r db =
    if is_zero delta
    then db
    else upsert_identity_cost_ledger_actual_for_job delta r.currency job (record db {
      budgets = adjust_budgets delta (list_finalized_budget_holds r.id db.holds) db.budgets;
    })

unfoldable pub fold_reported : String → Reservation → ℕ → Db → Db
unfolding apply_delta
fold_reported job r reported db =
    let delta = sub_ℕ reported (amount_or_zero r.actual_amount) in
    let updated = reconcile_reservation_actual r.id reported db in
    apply_delta delta job r (record updated {
      jobs = set_generation_job_actual_cost_for_reservation (some reported) job r.id updated.jobs;
    })

-- ReconcileForReservation
unfoldable pub reconcile_for_reservation : String → String → Db → Db
unfolding fold_reported
reconcile_for_reservation job id db = elim (get_terminal_reservation job id db) [
  | none ↦ db
  | some r ↦ elim (sum_reported_reservation_actual job id db.events) [
    | none ↦ db
    | some reported ↦ fold_reported job r reported db
  ]
]
