-- ===== src/Cost.antt =====
-- internal/cost/cost.go and its tables. Amounts are NUMERIC(14, 4) columns in units of 10^-4 USD, and
-- unit prices NUMERIC(14, 6) columns in units of 10^-6; neither overflows here.
pub mod Queries
pub mod Events
pub mod Reserve
pub mod Lifecycle
pub mod Conservation
pub mod Closing
pub mod Settling
pub mod Once
pub mod Reported
pub mod Admission
pub mod Reconciled
pub mod Reserving
mod Tests
use dreamchat_image_platform.Common.{ℕ, String, Bool, Option, List}
use dreamchat_image_platform.Common.Int.{ℤ}

pub data Scope : Type 0 where
  tenant token world user : Scope

pub data Period : Type 0 where
  daily monthly : Period

pub data BudgetStatus : Type 0 where
  active paused exceeded : BudgetStatus

-- The statuses of a reservation and of a hold.
pub data Status : Type 0 where
  reserved committed released failed : Status

pub data FailureReason : Type 0 where
  no_price_entry budget_exceeded : FailureReason

pub data EventStatus : Type 0 where
  event_succeeded event_failed : EventStatus

pub data DbError : Type 0 where
  unique_violation : DbError

pub data Result {ℓ} (A : Type ℓ) : Type ℓ where
  ok : A → Result A
  err : DbError → Result A

infixl 5 ◌>>=◌
abbrev pub ◌>>=◌ {ℓ κ} : {A : Type ℓ} {B : Type κ} → Result A → (A → Result B) → Result B
ok a >>= f = f a
err e >>= f = err e

-- provider_model_prices
pub record Price : Type 0 where
  pub provider_id : String
  pub model_id : String
  pub operation_type : String
  pub unit_type : String
  pub currency : String
  pub price_per_unit : ℕ
  pub is_active : Bool
  pub effective_from : ℕ

-- cost_budgets
pub record Budget : Type 0 where
  pub id : String
  pub tenant_id : String
  pub scope_type : Scope
  pub scope_id : String
  pub period : Period
  pub period_start : ℕ
  pub status : BudgetStatus
  pub limit_amount : ℕ
  pub reserved_amount : ℕ
  pub spent_amount : ℕ

-- cost_reservation_budget_holds
pub record Hold : Type 0 where
  pub id : String
  pub cost_reservation_id : String
  pub cost_budget_id : String
  pub reserved_amount : ℕ
  pub status : Status

-- cost_reservations
pub record Reservation : Type 0 where
  pub id : String
  pub generation_job_id : String
  pub tenant_id : String
  pub estimated_amount : ℕ
  pub reserved_amount : ℕ
  pub actual_amount : Option ℕ
  pub currency : String
  pub status : Status
  pub failure_reason : Option FailureReason

-- generation_cost_events, the newest first
pub record CostEvent : Type 0 where
  pub job_id : String
  pub cost_reservation_id : Option String
  pub estimated_cost : Option ℕ
  pub actual_cost : Option ℕ
  -- metadata->>'actual_inferred_from_estimate' = 'true'
  pub inferred : Bool
  pub status : EventStatus

-- the columns of generation_jobs that cost control reads and writes
pub record Job : Type 0 where
  pub id : String
  pub cost_reservation_id : Option String
  pub identity : Option String
  pub actual_cost : Option ℕ

-- identity_cost_ledger
pub record LedgerRow : Type 0 where
  pub identity : String
  pub estimated_total : ℕ
  pub actual_total : ℤ
  pub currency : String

pub record Db : Type 0 where
  pub prices : List Price
  pub budgets : List Budget
  pub holds : List Hold
  pub reservations : List Reservation
  pub events : List CostEvent
  pub jobs : List Job
  pub ledger : List LedgerRow
