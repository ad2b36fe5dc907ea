-- ===== src/Cost/Queries.antt =====
-- The statements of internal/db/dbgen/cost.sql.go and cost_lifecycle.sql.go that cost control runs.
-- `updated_at` columns are left out. The start of the current UTC window of a period, which the
-- database computes from `now()`, is an argument.
use dreamchat_image_platform.Common.{
  ℕ, ◌+◌, ◌-◌, ◌*◌, ◌/◌, String, Bool, true, false, not, ◌&&◌, Option, none, some, List, [], ◌∷◌,
  ◌==◌, ltb, leb, if◌then◌else◌, keep_if,
}
use dreamchat_image_platform.Common.Sort.{scan_best}
use dreamchat_image_platform.Common.Tables.{find_row, update_row}
use dreamchat_image_platform.Cost.{
  tenant, token, world, user, Period, BudgetStatus, active, paused, exceeded, Status, reserved,
  committed, released, failed, budget_exceeded, unique_violation, Result, ok, err, Price, Budget,
  Hold, Reservation, CostEvent, Job, LedgerRow, Db,
}

abbrev pub budget_key : Budget → String
budget_key b = b.id

abbrev pub hold_key : Hold → String
hold_key h = h.id

abbrev pub reservation_key : Reservation → String
reservation_key r = r.id

abbrev pub job_key : Job → String
job_key j = j.id

abbrev pub ledger_key : LedgerRow → String
ledger_key l = l.identity

-- Comparison with a column that may be NULL.
abbrev pub is_some_text : Option String → String → Bool
is_some_text none s = false
is_some_text (some t) s = t == s

-- What the reservation is asked for.
pub record ReserveInput : Type 0 where
  pub job_id : String
  pub tenant_id : String
  pub token_id : String
  pub world_id : String
  pub user_id : String
  pub provider_id : String
  pub model_id : String
  pub operation_type : String
  pub units : ℕ

pub record Estimate : Type 0 where
  pub unit_type : String
  pub currency : String
  pub estimated_amount : ℕ

abbrev priced : ReserveInput → Price → Bool
priced i p =
    p.provider_id == i.provider_id
    && (p.model_id == i.model_id && (p.operation_type == i.operation_type && p.is_active))

-- ORDER BY effective_from DESC LIMIT 1
newest : List Price → Option Price
newest [] = none
newest (p ∷ ps) = some (scan_best (λ a b. ltb b.effective_from a.effective_from) p ps)

-- The product is rounded to four decimals, half away from zero.
unfoldable pub estimate_operation_cost : List Price → ReserveInput → Option Estimate
unfolding newest
estimate_operation_cost prices i = elim (newest (keep_if (priced i) prices)) [
  | none ↦ none
  | some p ↦ some (record {
    unit_type = p.unit_type;
    currency = p.currency;
    estimated_amount = (p.price_per_unit * i.units + 50) / 100;
  })
]

abbrev scope_matches : ReserveInput → Budget → Bool
scope_matches i b = elim b.scope_type [
  | tenant ↦ b.scope_id == i.tenant_id
  | token ↦ b.scope_id == i.token_id
  | world ↦ b.scope_id == i.world_id
  | user ↦ b.scope_id == i.user_id
]

unfoldable pub list_budgets_for_reservation : List Budget → ReserveInput → List Budget
list_budgets_for_reservation budgets i =
    keep_if (λ b. b.tenant_id == i.tenant_id && scope_matches i b) budgets

abbrev pub reactivated : BudgetStatus → BudgetStatus
reactivated exceeded = active
reactivated s = s

-- The row that ResetBudgetPeriodIfElapsed leaves, by the start of the current window.
abbrev pub reset_budget : (Period → ℕ) → Budget → Budget
reset_budget window b =
    if ltb b.period_start (window b.period)
    then record b {
      period_start = window b.period;
      spent_amount = 0;
      status = reactivated b.status;
    }
    else b

unfoldable pub reset_budget_period_if_elapsed : (Period → ℕ) → String → List Budget → List Budget
reset_budget_period_if_elapsed window id budgets =
    update_row budget_key id (reset_budget window) budgets

abbrev pub is_active_status : BudgetStatus → Bool
is_active_status active = true
is_active_status s = false

abbrev pub is_paused_status : BudgetStatus → Bool
is_paused_status paused = true
is_paused_status s = false

abbrev pub credit : ℕ → Budget → Budget
credit amount b = record b { reserved_amount = b.reserved_amount + amount }

-- An UPDATE with a guard on the row, RETURNING id: `none` is pgx.ErrNoRows.
unfoldable pub credit_if : (Budget → Bool) → ℕ → String → List Budget → Option (List Budget)
credit_if guard amount id budgets = elim (find_row budget_key id budgets) [
  | none ↦ none
  | some b ↦ if guard b then some (update_row budget_key id (credit amount) budgets) else none
]

abbrev pub admits : ℕ → Budget → Bool
admits amount b =
    is_active_status b.status && leb (b.reserved_amount + b.spent_amount + amount) b.limit_amount

unfoldable pub reserve_active_budget : ℕ → String → List Budget → Option (List Budget)
unfolding credit_if
reserve_active_budget amount = credit_if (admits amount) amount

unfoldable pub reserve_paused_budget : ℕ → String → List Budget → Option (List Budget)
unfolding credit_if
reserve_paused_budget amount = credit_if (λ b. is_paused_status b.status) amount

-- An INSERT is refused where the primary key is taken.
unfoldable pub insert_budget_hold : Hold → List Hold → Result (List Hold)
insert_budget_hold h holds = elim (find_row hold_key h.id holds) [
  | none ↦ ok (h ∷ holds)
  | some old ↦ err unique_violation
]

unfoldable pub insert_cost_reservation : Reservation → List Reservation → Result (List Reservation)
insert_cost_reservation r rows = elim (find_row reservation_key r.id rows) [
  | none ↦ ok (r ∷ rows)
  | some old ↦ err unique_violation
]

unfoldable pub mark_reservation_budget_exceeded : String → List Reservation → List Reservation
mark_reservation_budget_exceeded id rows =
    update_row reservation_key id
      (λ r. record r {
        status = failed;
        failure_reason = some budget_exceeded;
        reserved_amount = 0;
      })
      rows

-- An event that carries what a provider reported.
abbrev pub is_reported : String → String → CostEvent → Bool
is_reported job reservation e =
    e.job_id == job
    && (is_some_text e.cost_reservation_id reservation
        && (elim e.actual_cost [ none ↦ false | some _ ↦ true ] && not e.inferred))

abbrev pub amount_or_zero : Option ℕ → ℕ
amount_or_zero none = 0
amount_or_zero (some n) = n

-- SUM over the reported events, NULL where there are none.
unfoldable pub sum_reported_reservation_actual : String → String → List CostEvent → Option ℕ
sum_reported_reservation_actual job reservation [] = none
sum_reported_reservation_actual job reservation (e ∷ events) =
    let rest = sum_reported_reservation_actual job reservation events in
    if is_reported job reservation e
    then some (amount_or_zero e.actual_cost + amount_or_zero rest)
    else rest

abbrev pub is_reserved : Status → Bool
is_reserved reserved = true
is_reserved s = false

abbrev pub or_else : Option ℕ → ℕ → Option ℕ
or_else none n = some n
or_else (some m) n = some m

-- The guard of the four terminal UPDATEs of a reservation.
unfoldable pub open_reservation : String → String → List Reservation → Option Reservation
open_reservation job id rows = elim (find_row reservation_key id rows) [
  | none ↦ none
  | some r ↦ if r.generation_job_id == job && is_reserved r.status then some r else none
]

-- CommitReservationByID: the row as RETURNING gives it, or `none` for pgx.ErrNoRows.
unfoldable pub commit_reservation_by_id : String → String → Db → Option (Reservation × Db)
commit_reservation_by_id job id db = elim (open_reservation job id db.reservations) [
  | none ↦ none
  | some r ↦
      let close = λ (row : Reservation). record row {
        status = committed;
        actual_amount =
            or_else (sum_reported_reservation_actual job id db.events) row.estimated_amount;
      } in
      some
        (close r, record db { reservations = update_row reservation_key id close db.reservations })
]

unfoldable pub release_reservation_by_id : String → String → Db → Option (Reservation × Db)
release_reservation_by_id job id db = elim (open_reservation job id db.reservations) [
  | none ↦ none
  | some r ↦
      let close = λ (row : Reservation). record row {
        status = released;
        actual_amount = sum_reported_reservation_actual job id db.events;
      } in
      some
        (close r, record db { reservations = update_row reservation_key id close db.reservations })
]

-- (SELECT j.cost_reservation_id FROM generation_jobs j WHERE j.id = job)
unfoldable pub current_reservation : String → List Job → Option String
current_reservation job jobs = elim (find_row job_key job jobs) [
  | none ↦ none
  | some j ↦ j.cost_reservation_id
]

unfoldable pub commit_reservation_for_job : String → Db → Option (Reservation × Db)
commit_reservation_for_job job db = elim (current_reservation job db.jobs) [
  | none ↦ none
  | some id ↦ commit_reservation_by_id job id db
]

unfoldable pub release_reservation_for_job : String → Db → Option (Reservation × Db)
release_reservation_for_job job db = elim (current_reservation job db.jobs) [
  | none ↦ none
  | some id ↦ release_reservation_by_id job id db
]

abbrev pub holds_open : String → Hold → Bool
holds_open reservation h = h.cost_reservation_id == reservation && is_reserved h.status

unfoldable pub list_reserved_budget_holds : String → List Hold → List Hold
list_reserved_budget_holds reservation holds = keep_if (holds_open reservation) holds

-- GREATEST(reserved_amount - amount, 0) is the subtraction of ℕ.
unfoldable pub commit_budget_hold : ℕ → ℕ → String → List Budget → List Budget
commit_budget_hold amount actual id budgets =
    update_row budget_key id
      (λ b. record b {
        reserved_amount = b.reserved_amount - amount;
        spent_amount = b.spent_amount + actual;
      })
      budgets

unfoldable pub release_budget_hold : ℕ → String → List Budget → List Budget
release_budget_hold amount id budgets =
    update_row budget_key id (λ b. record b { reserved_amount = b.reserved_amount - amount })
      budgets

unfoldable pub mark_budget_hold_status : Status → String → List Hold → List Hold
mark_budget_hold_status status id holds =
    update_row hold_key id (λ h. if is_reserved h.status then record h { status = status } else h)
      holds

unfoldable pub set_generation_job_actual_cost_for_reservation :
    Option ℕ → String → String → List Job → List Job
set_generation_job_actual_cost_for_reservation actual job reservation jobs =
    update_row job_key job
      (λ j.
        if is_some_text j.cost_reservation_id reservation
        then record j { actual_cost = actual }
        else j)
      jobs

unfoldable pub set_generation_job_actual_cost : Option ℕ → String → List Job → List Job
set_generation_job_actual_cost actual job jobs =
    update_row job_key job (λ j. record j { actual_cost = actual }) jobs
