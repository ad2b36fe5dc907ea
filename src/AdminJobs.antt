-- ===== src/AdminJobs.antt =====
-- internal/adminjobs/adminjobs.go: an administrator's cancel and retry of a job, each one transaction
-- over the tables of the jobs and of cost control. The columns of generation_jobs stand in two tables,
-- those of the jobs and those of cost control; cost_reservation_id, which both read, is written in both.
pub mod Retry
pub mod Cancelled
pub mod Retried
pub mod Answered
mod Tests
use dreamchat_image_platform.Common.{
  ℕ, String, Bool, true, false, not, ◌&&◌, ◌||◌, ◌==◌, ltb, Option, none, some, List, [], ◌∷◌, map,
  if◌then◌else◌,
}
use dreamchat_image_platform.Common.Tables.{find_row, update_row}
use dreamchat_image_platform.Cost.{
  Db, DbError, Period, ok, err, Result, FailureReason, no_price_entry,
}
use dreamchat_image_platform.Cost.Lifecycle.{finalize, release}
use dreamchat_image_platform.Cost.Queries.{ReserveInput}
use dreamchat_image_platform.Cost.Reserve.{Outcome, reserve}
use dreamchat_image_platform.Jobs.{
  JobStatus, queued, running, preview_ready, completed, failed, cancelled, GenerationJob, Store,
}
use dreamchat_image_platform.Jobs.Queries.{
  job_key, lock_generation_job, lock_generation_job_row, cancel_generation_job, mark_failed,
  retry_reset_generation_job,
}
use dreamchat_image_platform.Jobs.Steps.{with_jobs}

pub data PackStatus : Type 0 where
  planned in_progress pack_preview_ready pack_completed completed_with_warnings pack_failed :
      PackStatus

-- asset_packs
pub record AssetPack : Type 0 where
  pub id : String
  pub created_by_job_id : String
  pub status : PackStatus

pub record World : Type 0 where
  pub store : Store
  pub packs : List AssetPack
  pub db : Db

pub data AdminError : Type 0 where
  not_found invalid_state no_rows no_persisted_route enqueue_failed cleanup_failed : AdminError
  reservation_failed : FailureReason → AdminError
  reserve_error : DbError → AdminError

pub data AdminResult : Type 0 where
  done : AdminResult
  refused : AdminError → AdminResult

abbrev has_open_status : PackStatus → Bool
has_open_status pack_preview_ready = false
has_open_status s = true

-- UpdateAssetPackStatusForJob with the status failed
unfoldable pub fail_asset_pack_for_job : String → String → List AssetPack → List AssetPack
fail_asset_pack_for_job pack job packs =
    map
      (λ p.
        if p.id == pack && (p.created_by_job_id == job && has_open_status p.status)
        then record p { status = pack_failed }
        else p)
      packs

-- The pack of the job's row, if it names one.
unfoldable pub fail_pack_of : String → Option GenerationJob → List AssetPack → List AssetPack
fail_pack_of job none packs = packs
fail_pack_of job (some j) packs = elim j.asset_pack_id [
  | none ↦ packs
  | some pack ↦ if pack == "" then packs else fail_asset_pack_for_job pack job packs
]

unfoldable pub cancel_message : JobStatus → String
cancel_message queued = "job cancelled by admin from status queued"
cancel_message running = "job cancelled by admin from status running"
cancel_message preview_ready = "job cancelled by admin from status preview_ready"
cancel_message completed = "job cancelled by admin from status completed"
cancel_message failed = "job cancelled by admin from status failed"
cancel_message cancelled = "job cancelled by admin from status cancelled"

-- The releaser's ReleaseInTx: the job's current reservation.
abbrev pub release_in_tx : String → Db → Db
release_in_tx job db = finalize release job "" db

unfoldable pub cancel_live : JobStatus → String → String → World → AdminResult × World
cancel_live status tenant job w =
    elim (cancel_generation_job job tenant (cancel_message status) w.store.jobs) [
      | none ↦ (refused no_rows, w)
      | some jobs ↦ (
        done,
        record {
          store = with_jobs jobs w.store;
          packs = fail_pack_of job (find_row job_key job jobs) w.packs;
          db = release_in_tx job w.db;
        },
      )
    ]

unfoldable pub cancel_by_status : JobStatus → String → String → World → AdminResult × World
cancel_by_status cancelled tenant job w = (done, record w { db = release_in_tx job w.db })
cancel_by_status queued tenant job w = cancel_live queued tenant job w
cancel_by_status running tenant job w = cancel_live running tenant job w
cancel_by_status preview_ready tenant job w = cancel_live preview_ready tenant job w
cancel_by_status completed tenant job w = (refused invalid_state, w)
cancel_by_status failed tenant job w = (refused invalid_state, w)

unfoldable pub cancel_locked : Option JobStatus → String → String → World → AdminResult × World
cancel_locked none tenant job w = (refused not_found, w)
cancel_locked (some status) tenant job w = cancel_by_status status tenant job w

-- CancelJob
unfoldable pub cancel_job : String → String → World → AdminResult × World
cancel_job tenant job w = cancel_locked (lock_generation_job job tenant w.store.jobs) tenant job w

abbrev or_empty : Option String → String
or_empty none = ""
or_empty (some s) = s

-- reserveInputFromRow
unfoldable pub reserve_input_from_row : String → String → GenerationJob → Option ReserveInput
reserve_input_from_row job tenant row =
    let p = row.input_payload in
    if p.provider_id == "" || p.model_id == ""
    then none
    else some (record {
      job_id = job;
      tenant_id = tenant;
      token_id = or_empty row.requested_by_token_id;
      world_id = or_empty row.world_id;
      user_id = p.user_id;
      provider_id = p.provider_id;
      model_id = p.model_id;
      operation_type = if p.operation_type == "" then "text_to_image" else p.operation_type;
      units = if ltb 0 p.units then p.units else 1;
    })

-- The columns of cost control that RetryResetGenerationJob writes.
unfoldable pub reset_cost_columns : String → String → Db → Db
reset_cost_columns job reservation db = record db {
  jobs =
      update_row (λ j. j.id) job
        (λ j. record j { cost_reservation_id = some reservation; actual_cost = none }) db.jobs;
}
