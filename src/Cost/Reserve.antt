-- ===== src/Cost/Reserve.antt =====
-- `Service.Reserve` of internal/cost/cost.go: the price, the estimate and the all-or-nothing hold
-- against the tenant's budgets and the narrowest applicable scope.
use dreamchat_image_platform.Common.{
  ℕ, String, Bool, true, false, not, Option, none, some, List, [], ◌∷◌, ◌++◌, ◌!=◌, if◌then◌else◌,
  length, keep_if, is_empty,
}
use dreamchat_image_platform.Cost.{
  Scope, tenant, token, world, user, Period, reserved, failed, FailureReason, no_price_entry,
  budget_exceeded, Result, ok, ◌>>=◌, Budget, Hold, Db,
}
use dreamchat_image_platform.Cost.Queries.{
  ReserveInput, Estimate, estimate_operation_cost, list_budgets_for_reservation,
  reset_budget_period_if_elapsed, is_paused_status, reserve_active_budget, reserve_paused_budget,
  insert_budget_hold, insert_cost_reservation, mark_reservation_budget_exceeded,
}

-- cost.Reservation, without the estimate's textual form.
pub record Outcome : Type 0 where
  pub id : String
  pub denied : Option FailureReason
  pub estimated_amount : ℕ
  pub reserved_amount : ℕ
  pub currency : String

abbrev is_scope : Scope → Budget → Bool
is_scope tenant b = elim b.scope_type [ tenant ↦ true | _ ↦ false ]
is_scope token b = elim b.scope_type [ token ↦ true | _ ↦ false ]
is_scope world b = elim b.scope_type [ world ↦ true | _ ↦ false ]
is_scope user b = elim b.scope_type [ user ↦ true | _ ↦ false ]

-- The tenant's budgets, and those of the narrowest scope that has any.
unfoldable pub select_budgets : List Budget → List Budget
select_budgets budgets =
    let of_tenant = keep_if (is_scope tenant) budgets in
    let of_token = keep_if (is_scope token) budgets in
    let of_world = keep_if (is_scope world) budgets in
    let of_user = keep_if (is_scope user) budgets in
    if not (is_empty of_token)
    then of_tenant ++ of_token
    else if not (is_empty of_world)
    then of_tenant ++ of_world
    else if not (is_empty of_user)
    then of_tenant ++ of_user
    else of_tenant

abbrev pub or_try : Option (List Budget) → Option (List Budget) → Option (List Budget)
or_try none other = other
or_try (some budgets) other = some budgets

-- The state that was observed is tried first, then the other one.
unfoldable pub reserve_observed : Budget → ℕ → List Budget → Option (List Budget)
reserve_observed observed amount budgets =
    if is_paused_status observed.status
    then or_try (reserve_paused_budget amount observed.id budgets)
        (reserve_active_budget amount observed.id budgets)
    else or_try (reserve_active_budget amount observed.id budgets)
        (reserve_paused_budget amount observed.id budgets)

abbrev pub new_hold : String → String → Budget → ℕ → Hold
new_hold id reservation b amount = record {
  id = id;
  cost_reservation_id = reservation;
  cost_budget_id = b.id;
  reserved_amount = amount;
  status = reserved;
}

-- The loop over the budgets to enforce; `none` is a denial. `ids` are the ids that are generated for
-- the holds, the last of them for the last budget.
unfoldable pub hold_budgets :
    (Period → ℕ) → (ℕ → String) → String → ℕ → List Budget → Db → Result (Option Db)
hold_budgets window ids reservation amount [] db = ok (some db)
hold_budgets window ids reservation amount (b ∷ rest) db =
    let fresh = reset_budget_period_if_elapsed window b.id db.budgets in
    elim (reserve_observed b amount fresh) [
      | none ↦ ok none
      | some credited ↦
          insert_budget_hold (new_hold (ids (length rest)) reservation b amount) db.holds
          >>= λ held.
              hold_budgets window ids reservation amount rest
                (record db { budgets = credited; holds = held })
    ]

-- A denial rolls the savepoint back; the result says whether the hold stands.
abbrev pub settle_savepoint : Db → Option Db → Bool × Db
settle_savepoint before none = (false, before)
settle_savepoint before (some after) = (true, after)

-- `listed` are the budgets as they were read before the savepoint.
unfoldable pub reserve_budgets :
    (Period → ℕ) → (ℕ → String) → String → ℕ → List Budget → Db → Result (Bool × Db)
reserve_budgets window ids reservation amount listed db =
    hold_budgets window ids reservation amount (select_budgets listed) db >>= λ done.
    ok (settle_savepoint db done)

unfoldable pub insert_failed : ReserveInput → String → Db → Result (Outcome × Db)
insert_failed i id db =
    insert_cost_reservation
      (record {
        id = id;
        generation_job_id = i.job_id;
        tenant_id = i.tenant_id;
        estimated_amount = 0;
        reserved_amount = 0;
        actual_amount = none;
        currency = "USD";
        status = failed;
        failure_reason = some no_price_entry;
      })
      db.reservations
    >>= λ rows. ok (
      record {
        id = id;
        denied = some no_price_entry;
        estimated_amount = 0;
        reserved_amount = 0;
        currency = "USD";
      },
      record db { reservations = rows },
    )

-- The reservation is reported as it stands after the holds.
unfoldable pub report_hold : String → Estimate → Bool × Db → Outcome × Db
report_hold id est (true, db) = (
  record {
    id = id;
    denied = none;
    estimated_amount = est.estimated_amount;
    reserved_amount = est.estimated_amount;
    currency = est.currency;
  },
  db,
)
report_hold id est (false, db) = (
  record {
    id = id;
    denied = some budget_exceeded;
    estimated_amount = est.estimated_amount;
    reserved_amount = 0;
    currency = est.currency;
  },
  record db { reservations = mark_reservation_budget_exceeded id db.reservations },
)

unfoldable pub reserve_priced :
    (Period → ℕ) → (ℕ → String) → ReserveInput → String → Estimate → Db → Result (Outcome × Db)
unfolding report_hold
reserve_priced window ids i id est db =
    insert_cost_reservation
      (record {
        id = id;
        generation_job_id = i.job_id;
        tenant_id = i.tenant_id;
        estimated_amount = est.estimated_amount;
        reserved_amount = est.estimated_amount;
        actual_amount = none;
        currency = est.currency;
        status = reserved;
        failure_reason = none;
      })
      db.reservations
    >>= λ rows.
        reserve_budgets window ids id est.estimated_amount
          (list_budgets_for_reservation db.budgets i) (record db { reservations = rows })
        >>= λ held. ok (report_hold id est held)

-- `id` is the new reservation's id.
unfoldable pub reserve :
    (Period → ℕ) → (ℕ → String) → ReserveInput → String → Db → Result (Outcome × Db)
unfolding insert_failed reserve_priced
reserve window ids i id db = elim (estimate_operation_cost db.prices i) [
  | none ↦ insert_failed i id db
  | some est ↦
      if est.unit_type != "image"
      then insert_failed i id db
      else reserve_priced window ids i id est db
]
