-- ===== src/Jobs.antt =====
-- internal/jobs and its tables: the rows of generation_jobs, visual_assets, provider_attempts and
-- generation_cost_events, with the columns that the modelled code reads or writes.
pub mod Queries
pub mod Persist
pub mod Steps
pub mod Coherence
pub mod Changes
pub mod Settled
pub mod Persisted
pub mod Stale
pub mod Fallback
pub mod Billing
pub mod Walking
pub mod Stopping
pub mod Worker
pub mod Claims
mod Tests
use dreamchat_image_platform.Assets.Supersede.{StoredAsset}
use dreamchat_image_platform.Common.{ℕ, String, Bool, true, false, Option, List}

pub data JobStatus : Type 0 where
  queued running preview_ready completed failed cancelled : JobStatus

-- resolvedRoute: a provider, its model and the route row they came from.
pub record ResolvedRoute : Type 0 where
  pub provider_id : String
  pub model_id : String
  pub route_id : String

-- What the worker reads of input_payload. A number that is missing or negative is 0, a text that is
-- missing is empty.
pub record Payload : Type 0 where
  pub provider_id : String
  pub model_id : String
  pub route_id : String
  pub fallback_routes : List ResolvedRoute
  pub operation_type : String
  pub user_id : String
  pub units : ℕ
  pub variant_keys : List String
  pub delivery_mode : String
  pub preview_capability : String
  pub force_regenerate : Bool
  pub preview_finalization_claimed : Bool

-- generation_jobs
pub record GenerationJob : Type 0 where
  pub id : String
  pub tenant_id : String
  pub world_id : Option String
  pub status : JobStatus
  pub requested_by_token_id : Option String
  pub asset_pack_id : Option String
  pub input_payload : Payload
  pub preview_asset_ids : List String
  pub final_asset_ids : List String
  pub error_code : Option String
  pub error_message : Option String
  pub retryable : Option Bool
  pub cost_reservation_id : Option String
  pub cost_estimate_usd : ℕ
  pub actual_cost_usd : Option ℕ

pub data AttemptStatus : Type 0 where
  started succeeded attempt_failed : AttemptStatus

-- provider_attempts
pub record ProviderAttempt : Type 0 where
  pub id : String
  pub generation_job_id : String
  pub provider_id : String
  pub model_id : String
  pub attempt_number : ℕ
  pub status : AttemptStatus
  pub error_code : Option String
  pub latency_ms : Option ℕ

-- generation_cost_events, as the worker writes them
pub record ProviderEvent : Type 0 where
  pub id : String
  pub job_id : String
  pub cost_reservation_id : Option String
  pub asset_id : Option String
  pub provider_id : String
  pub provider_attempt_id : String
  pub actual_cost_usd : Option ℕ
  pub status : String

pub record Store : Type 0 where
  pub jobs : List GenerationJob
  pub assets : List StoredAsset
  pub attempts : List ProviderAttempt
  pub events : List ProviderEvent

abbrev pub is_queued : JobStatus → Bool
is_queued queued = true
is_queued s = false

abbrev pub is_running : JobStatus → Bool
is_running running = true
is_running s = false

abbrev pub is_preview_ready : JobStatus → Bool
is_preview_ready preview_ready = true
is_preview_ready s = false

abbrev pub is_completed : JobStatus → Bool
is_completed completed = true
is_completed s = false

abbrev pub is_failed : JobStatus → Bool
is_failed failed = true
is_failed s = false

abbrev pub is_cancelled : JobStatus → Bool
is_cancelled cancelled = true
is_cancelled s = false

-- The statuses that still occupy the queue or a provider.
abbrev pub is_live : JobStatus → Bool
is_live queued = true
is_live running = true
is_live preview_ready = true
is_live s = false
