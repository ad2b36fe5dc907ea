-- ===== src/Jobs/Persist.antt =====
-- internal/jobs/guarded_persist.go: the two transactions that record a provider's output, each under
-- the lock of the job's row. A transaction that fails is rolled back.
use dreamchat_image_platform.Common.{
  ℕ, String, Bool, ◌==◌, Option, none, some, List, [], ◌∷◌, if◌then◌else◌,
}
use dreamchat_image_platform.Assets.Supersede.{
  StoredAsset, ArtifactSlot, insert_asset, insert_preview_asset, supersede_artifact_slot,
}
use dreamchat_image_platform.Jobs.{
  JobStatus, queued, running, preview_ready, completed, failed, cancelled, GenerationJob,
  ProviderEvent, Store,
}
use dreamchat_image_platform.Jobs.Queries.{
  lock_generation_job_row, mark_completed, mark_preview_ready, mark_provider_attempt_succeeded,
}

pub data PersistOutcome : Type 0 where
  persisted skipped_cancelled already_completed already_preview_ready already_terminal :
      PersistOutcome

pub data PersistError : Type 0 where
  not_found no_rows missing_attempt : PersistError
  not_active : JobStatus → PersistError

pub data PersistResult : Type 0 where
  ok : PersistOutcome → PersistResult
  err : PersistError → PersistResult

pub record PersistSuccess : Type 0 where
  pub attempt_id : String
  pub latency_ms : ℕ
  pub cost_event : ProviderEvent

-- No row under the lock: a stale reservation, or no job at all.
abbrev pub no_row : Option String → PersistResult
no_row none = err not_found
no_row (some reservation) = ok already_terminal

-- persistSuccessWithQueries: the attempt and its cost event, in the transaction of the output.
unfoldable pub persist_success : Option PersistSuccess → String → Store → Option Store
persist_success none asset_id st = some st
persist_success (some success) asset_id st =
    if success.attempt_id == ""
    then none
    else some (record st {
      attempts = mark_provider_attempt_succeeded success.attempt_id success.latency_ms st.attempts;
      events =
          record success.cost_event {
            asset_id = some asset_id;
            provider_attempt_id = success.attempt_id;
          }
          ∷ st.events;
    })

-- What the transaction writes: the asset, the job's transition, and the bookkeeping.
unfoldable pub write_output :
    List StoredAsset
    → Option (List GenerationJob)
    → Option PersistSuccess
    → String
    → Store
    → PersistResult × Store
write_output assets none success asset_id st = (err no_rows, st)
write_output assets (some jobs) success asset_id st =
    elim (persist_success success asset_id (record st { assets = assets; jobs = jobs })) [
      | none ↦ (err missing_attempt, st)
      | some st' ↦ (ok persisted, st')
    ]

-- What the status under the lock decides about a final output, which the second argument is.
unfoldable pub final_by_status : JobStatus → PersistResult × Store → Store → PersistResult × Store
final_by_status cancelled output st = (ok skipped_cancelled, st)
final_by_status completed output st = (ok already_completed, st)
final_by_status failed output st = (ok already_terminal, st)
final_by_status queued output st = (err (not_active queued), st)
final_by_status running output st = output
final_by_status preview_ready output st = output

unfoldable pub final_locked :
    Option GenerationJob → Option String → PersistResult × Store → Store → PersistResult × Store
unfolding final_by_status
final_locked none reservation output st = (no_row reservation, st)
final_locked (some locked) reservation output st = final_by_status locked.status output st

-- insertFinalAssetAndCompleteJob
unfoldable pub insert_final_asset_and_complete_job :
    String
    → String
    → StoredAsset
    → Bool
    → ArtifactSlot
    → Option PersistSuccess
    → Option String
    → Store
    → PersistResult × Store
insert_final_asset_and_complete_job job tenant params forced slot success reservation st =
    final_locked (lock_generation_job_row job tenant reservation st.jobs) reservation
      (write_output
        (if forced
          then supersede_artifact_slot params slot st.assets
          else insert_asset params st.assets)
        (mark_completed job tenant (params.id ∷ []) reservation st.jobs) success params.id st)
      st

-- What the status under the lock decides about a preview.
unfoldable pub preview_by_status : JobStatus → PersistResult × Store → Store → PersistResult × Store
preview_by_status cancelled output st = (ok skipped_cancelled, st)
preview_by_status preview_ready output st = (ok already_preview_ready, st)
preview_by_status completed output st = (ok already_completed, st)
preview_by_status failed output st = (ok already_terminal, st)
preview_by_status queued output st = (err (not_active queued), st)
preview_by_status running output st = output

unfoldable pub preview_locked :
    Option GenerationJob → Option String → PersistResult × Store → Store → PersistResult × Store
unfolding preview_by_status
preview_locked none reservation output st = (no_row reservation, st)
preview_locked (some locked) reservation output st = preview_by_status locked.status output st

-- insertPreviewAssetAndMarkPreviewReady
unfoldable pub insert_preview_asset_and_mark_preview_ready :
    String
    → String
    → StoredAsset
    → Option PersistSuccess
    → Option String
    → Store
    → PersistResult × Store
insert_preview_asset_and_mark_preview_ready job tenant params success reservation st =
    preview_locked (lock_generation_job_row job tenant reservation st.jobs) reservation
      (write_output (insert_preview_asset params st.assets)
        (mark_preview_ready job tenant (params.id ∷ []) reservation st.jobs) success params.id st)
      st
