-- ===== src/Cost/Tests.antt =====
-- Concrete tables for internal/cost/cost.go, and the theorems on them.
use dreamchat_image_platform.Cost.Queries.{
  estimate_operation_cost, insert_budget_hold, insert_cost_reservation,
  list_budgets_for_reservation, reserve_active_budget, reset_budget_period_if_elapsed,
}
use dreamchat_image_platform.Common.Sort.{scan_best}
use dreamchat_image_platform.Cost.Reserve.{
  hold_budgets, reserve_budgets, reserve_observed, select_budgets,
}
use dreamchat_image_platform.Cost.Lifecycle.{
  adjust_budget_spent, adjust_budgets, get_terminal_reservation, list_finalized_budget_holds,
  reconcile_reservation_actual,
}
use dreamchat_image_platform.Cost.Events.{upsert_identity_cost_ledger_actual_for_job}
use dreamchat_image_platform.Common.{◌≡◌, refl, false, none, some, [], ◌∷◌, keep_if, arith}
use dreamchat_image_platform.Common.Tables.{find_row, update_row}
use dreamchat_image_platform.Cost.{
  tenant, daily, active, reserved, Budget, Hold, Reservation, CostEvent, event_succeeded, Db,
}
use dreamchat_image_platform.Cost.Queries.{
  commit_reservation_for_job, current_reservation, commit_reservation_by_id, open_reservation,
  set_generation_job_actual_cost_for_reservation, list_reserved_budget_holds, commit_budget_hold,
  sum_reported_reservation_actual,
}
use dreamchat_image_platform.Cost.Events.{upsert_identity_cost_ledger_for_job}
use dreamchat_image_platform.Cost.Lifecycle.{
  close_reservation, record_charge, settle_holds, settle_hold, commit, release, settle, finalize,
}
use dreamchat_image_platform.Cost.{Period, ok, committed, failed, no_price_entry, Price}
use dreamchat_image_platform.Common.{◌≢◌, all_of, true, ℕ, String}
use dreamchat_image_platform.Cost.Queries.{
  ReserveInput, budget_key, open_reservation, sum_reported_reservation_actual,
}
use dreamchat_image_platform.Cost.Lifecycle.{reconcile_for_reservation}
use dreamchat_image_platform.Cost.Reserve.{Outcome, reserve}
use dreamchat_image_platform.Cost.Admission.{is_within}
use dreamchat_image_platform.Cost.Reserving.{
  enforced, IsDenied, reserve-IsValid, reserve-within, reserve-IsDenied,
}
use dreamchat_image_platform.Cost.Reconciled.{
  reconcile_for_reservation-IsValid, reconcile_for_reservation_twice,
}
use dreamchat_image_platform.Cost.Conservation.{held, IsConserved, IsValid}
use dreamchat_image_platform.Cost.Settling.{finalize-IsValid}
use dreamchat_image_platform.Cost.Once.{finalize_twice}

abbrev budget : Budget
budget = record {
  id = "budget";
  tenant_id = "tenant";
  scope_type = tenant;
  scope_id = "tenant";
  period = daily;
  period_start = 7;
  status = active;
  limit_amount = 100000;
  reserved_amount = 400;
  spent_amount = 0;
}

abbrev hold : Hold
hold = record {
  id = "hold";
  cost_reservation_id = "reservation";
  cost_budget_id = "budget";
  reserved_amount = 400;
  status = reserved;
}

abbrev reservation : Reservation
reservation = record {
  id = "reservation";
  generation_job_id = "job";
  tenant_id = "tenant";
  estimated_amount = 400;
  reserved_amount = 400;
  actual_amount = none;
  currency = "USD";
  status = reserved;
  failure_reason = none;
}

abbrev event : CostEvent
event = record {
  job_id = "job";
  cost_reservation_id = some "reservation";
  estimated_cost = some 400;
  actual_cost = some 350;
  inferred = false;
  status = event_succeeded;
}

abbrev db : Db
db = record {
  prices = [];
  budgets = budget ∷ [];
  holds = hold ∷ [];
  reservations = reservation ∷ [];
  events = event ∷ [];
  jobs =
      record {
        id = "job";
        cost_reservation_id = some "reservation";
        identity = some "identity";
        actual_cost = none;
      }
      ∷ [];
  ledger = [];
}

db-IsConserved : IsConserved db.budgets db.holds
unfolding find_row held
db-IsConserved id b found = ground arith

db-IsValid : IsValid db
db-IsValid = record { conserved = db-IsConserved; distinct = (tt, tt) }

-- What the provider reported is spent, and nothing stays reserved.
commit_spends :
    (finalize commit "job" "" db).budgets
    ≡ record budget { reserved_amount = 0; spent_amount = 350 } ∷ []
unfolding finalize settle close_reservation commit_reservation_for_job current_reservation find_row
    commit_reservation_by_id open_reservation record_charge upsert_identity_cost_ledger_for_job
    set_generation_job_actual_cost_for_reservation update_row settle_holds
    list_reserved_budget_holds keep_if settle_hold commit_budget_hold
    sum_reported_reservation_actual
commit_spends = refl

finalize-IsValid_example : IsValid (finalize commit "job" "" db)
finalize-IsValid_example = finalize-IsValid commit "job" "" db db-IsValid

finalize_twice_example :
    finalize release "job" "" (finalize commit "job" "" db) ≡ finalize commit "job" "" db
finalize_twice_example = finalize_twice commit release "job" "" db

abbrev settled : Db
settled = record db {
  budgets = record budget { reserved_amount = 0; spent_amount = 400 } ∷ [];
  holds = record hold { status = committed } ∷ [];
  reservations = record reservation { status = committed; actual_amount = some 400 } ∷ [];
}

-- A charge reported late lowers what is spent from the estimate to the report.
reconcile_lowers :
    (reconcile_for_reservation "job" "reservation" settled).budgets
    ≡ record budget { reserved_amount = 0; spent_amount = 350 } ∷ []
unfolding reconcile_for_reservation get_terminal_reservation find_row
    sum_reported_reservation_actual upsert_identity_cost_ledger_actual_for_job
    set_generation_job_actual_cost_for_reservation update_row reconcile_reservation_actual
    adjust_budgets list_finalized_budget_holds keep_if adjust_budget_spent
reconcile_lowers = refl

reconcile_for_reservation-IsValid_example :
    IsValid (reconcile_for_reservation "job" "reservation" db)
reconcile_for_reservation-IsValid_example =
    reconcile_for_reservation-IsValid "job" "reservation" db db-IsValid

reconcile_for_reservation_twice_example :
    reconcile_for_reservation "job" "reservation"
      (reconcile_for_reservation "job" "reservation" settled)
    ≡ reconcile_for_reservation "job" "reservation" settled
reconcile_for_reservation_twice_example =
    reconcile_for_reservation_twice "job" "reservation" settled

abbrev price : Price
price = record {
  provider_id = "fal";
  model_id = "model";
  operation_type = "text_to_image";
  unit_type = "image";
  currency = "USD";
  price_per_unit = 40000;
  is_active = true;
  effective_from = 1;
}

abbrev asked : ReserveInput
asked = record {
  job_id = "job2";
  tenant_id = "tenant";
  token_id = "";
  world_id = "";
  user_id = "";
  provider_id = "fal";
  model_id = "model";
  operation_type = "text_to_image";
  units = 1;
}

abbrev priced_db : Db
priced_db = record db { prices = price ∷ [] }

abbrev window : Period → ℕ
window p = 7

abbrev new_ids : ℕ → String
new_ids n = "hold2"

abbrev outcome : Outcome
outcome = record {
  id = "reservation2";
  denied = none;
  estimated_amount = 400;
  reserved_amount = 400;
  currency = "USD";
}

abbrev held_db : Db
held_db = record priced_db {
  budgets = record budget { reserved_amount = 800 } ∷ [];
  holds = record hold { id = "hold2"; cost_reservation_id = "reservation2" } ∷ hold ∷ [];
  reservations =
      record reservation { id = "reservation2"; generation_job_id = "job2" } ∷ reservation ∷ [];
}

reserve_holds : reserve window new_ids asked "reservation2" priced_db ≡ ok (outcome, held_db)
unfolding reserve estimate_operation_cost keep_if scan_best insert_cost_reservation find_row
    reserve_budgets hold_budgets select_budgets list_budgets_for_reservation reserve_observed
    reserve_active_budget reset_budget_period_if_elapsed update_row insert_budget_hold
reserve_holds = refl

reserve-IsValid_example : IsValid held_db
reserve-IsValid_example =
    reserve-IsValid window new_ids asked "reservation2" priced_db held_db outcome reserve_holds
      (record { conserved = db-IsConserved; distinct = (tt, tt) })

reserve-within_example :
    (all_of (λ b. is_within (find_row budget_key b.id held_db.budgets)) (enforced asked priced_db)
      ≡ true)
    × (open_reservation "job2" "reservation2" held_db.reservations ≢ none)
reserve-within_example =
    reserve-within window new_ids asked "reservation2" priced_db held_db outcome reserve_holds refl

-- No price is stored: the reservation is denied.
abbrev refused : Outcome
refused = record outcome { denied = some no_price_entry; estimated_amount = 0; reserved_amount = 0 }

abbrev refused_db : Db
refused_db = record db {
  reservations =
      record {
        id = "reservation2";
        generation_job_id = "job2";
        tenant_id = "tenant";
        estimated_amount = 0;
        reserved_amount = 0;
        actual_amount = none;
        currency = "USD";
        status = failed;
        failure_reason = some no_price_entry;
      }
      ∷ reservation
      ∷ [];
}

reserve_refuses : reserve window new_ids asked "reservation2" db ≡ ok (refused, refused_db)
unfolding reserve estimate_operation_cost keep_if insert_cost_reservation find_row
reserve_refuses = refl

refused_denied : refused.denied ≢ none
refused_denied = λ e. cc

reserve-IsDenied_example : IsDenied asked "reservation2" db refused refused_db
reserve-IsDenied_example =
    reserve-IsDenied window new_ids asked "reservation2" db refused_db refused reserve_refuses
      refused_denied
