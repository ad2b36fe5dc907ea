-- ===== src/JobService.antt =====
-- CreateAndEnqueue of internal/jobs/service.go, after the payload has been prepared, for a job without
-- an asset pack: the cap on a token's live jobs, the idempotency key, the reservation, and the queue.
pub mod Create
pub mod Creating
pub mod Creations
mod Tests
use dreamchat_image_platform.Common.{
  ℕ, String, Bool, true, false, not, ◌&&◌, ◌==◌, ltb, leb, ◌+◌, Option, none, some, List, [], ◌∷◌,
  keep_if, length, if◌then◌else◌,
}
use dreamchat_image_platform.Common.Tables.{find_row}
use dreamchat_image_platform.Cost.{
  Db, DbError, Period, ok, err, Result, FailureReason, no_price_entry, budget_exceeded,
}
use dreamchat_image_platform.Cost.Lifecycle.{finalize, release}
use dreamchat_image_platform.Cost.Queries.{ReserveInput}
use dreamchat_image_platform.Cost.Reserve.{Outcome, reserve}
use dreamchat_image_platform.Jobs.{
  JobStatus, failed, GenerationJob, Payload, Store, is_live, is_failed,
}
use dreamchat_image_platform.Jobs.Queries.{job_key, mark_failed, set_generation_job_cost}
use dreamchat_image_platform.Jobs.Steps.{insert_generation_job, with_jobs}

-- idempotency_keys
pub record IdempotencyKey : Type 0 where
  pub token_id : String
  pub key : String
  pub endpoint : String
  pub request_hash : String
  pub generation_job_id : String
  pub expires_at : ℕ

pub record ServiceTables : Type 0 where
  pub store : Store
  pub db : Db
  pub keys : List IdempotencyKey

pub record CreateParams : Type 0 where
  pub tenant_id : String
  pub requested_by_token_id : String
  pub world_id : String
  pub visual_identity_id : Option String
  pub input_payload : Payload
  pub reserve_input : ReserveInput
  pub max_concurrent_jobs : ℕ
  pub idempotency_key : String
  pub endpoint : String
  pub request_hash : String

-- The time, the lifetime of a key, the ids that are drawn, and the queue, which may refuse a task with a
-- message.
pub record CreateService : Type 0 where
  pub now : ℕ
  pub ttl : ℕ
  pub job_id : String
  pub reservation_id : String
  pub window : Period → ℕ
  pub hold_ids : ℕ → String
  pub enqueue : String → String → Option String

pub data CreateError : Type 0 where
  concurrent_jobs_exceeded idempotency_conflict no_rows enqueue_failed cleanup_failed : CreateError
  preflight_denied : FailureReason → CreateError
  reserve_error : DbError → CreateError

pub data CreateResult : Type 0 where
  created : String → CreateResult
  replayed : String → JobStatus → CreateResult
  refused : CreateError → CreateResult

abbrev is_of_token : String → GenerationJob → Bool
is_of_token token j = elim j.requested_by_token_id [ none ↦ false | some t ↦ t == token ]

-- CountLiveGenerationJobsByToken
unfoldable pub count_live_jobs : String → List GenerationJob → ℕ
count_live_jobs token jobs = length (keep_if (λ j. is_of_token token j && is_live j.status) jobs)

-- GetIdempotencyKey: an expired row counts as absent.
unfoldable pub get_idempotency_key :
    ℕ → String → String → List IdempotencyKey → Option IdempotencyKey
get_idempotency_key now token key [] = none
get_idempotency_key now token key (k ∷ rows) =
    if k.token_id == token && (k.key == key && ltb now k.expires_at)
    then some k
    else get_idempotency_key now token key rows

-- InsertIdempotencyKey, after the lookup has found no live row: an expired row is overwritten.
unfoldable pub insert_idempotency_key : IdempotencyKey → List IdempotencyKey → List IdempotencyKey
insert_idempotency_key k rows =
    k ∷ keep_if (λ r. not (r.token_id == k.token_id && r.key == k.key)) rows

abbrev pub lookup_key : CreateParams → CreateService → ServiceTables → Option IdempotencyKey
lookup_key p s st =
    if p.idempotency_key == ""
    then none
    else get_idempotency_key s.now p.requested_by_token_id p.idempotency_key st.keys

unfoldable pub preflight_reason : Option String → Option FailureReason
preflight_reason none = none
preflight_reason (some code) =
    if code == "no_price_entry"
    then some no_price_entry
    else if code == "budget_exceeded"
    then some budget_exceeded
    else none

-- A replay of a job that the pre-flight denied answers with the denial again.
unfoldable pub replay_job : GenerationJob → CreateResult
replay_job j = elim (is_failed j.status) [
  | false ↦ replayed j.id j.status
  | true ↦ elim (preflight_reason j.error_code) [
    | none ↦ replayed j.id j.status
    | some reason ↦ refused (preflight_denied reason)
  ]
]

abbrev replay_found : Option GenerationJob → CreateResult
replay_found none = refused no_rows
replay_found (some j) = replay_job j

-- replayResult
unfoldable pub replay_result : CreateParams → IdempotencyKey → ServiceTables → CreateResult
replay_result p k st =
    if k.endpoint == p.endpoint && k.request_hash == p.request_hash
    then replay_found (find_row job_key k.generation_job_id st.store.jobs)
    else refused idempotency_conflict

-- LookupReplay, the handler's check before it resolves a route: none is a new request.
unfoldable pub lookup_replay : CreateParams → CreateService → ServiceTables → Option CreateResult
lookup_replay p s st =
    elim (get_idempotency_key s.now p.requested_by_token_id p.idempotency_key st.keys) [
      | none ↦ none
      | some existing ↦ some (replay_result p existing st)
    ]
