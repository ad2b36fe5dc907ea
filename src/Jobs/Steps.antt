-- ===== src/Jobs/Steps.antt =====
-- The life of generation_jobs rows: every statement that writes one, under the conditions of its
-- callers, as a step relation on the store; and what holds in every state that steps lead to.
use dreamchat_image_platform.Common.{ℕ, String, Bool, true, Option, none, some, List, [], ◌∷◌, ◌≡◌}
use dreamchat_image_platform.Common.Tables.{find_row}
use dreamchat_image_platform.Assets.Supersede.{StoredAsset, ArtifactSlot}
use dreamchat_image_platform.Jobs.{
  JobStatus, queued, completed, failed, GenerationJob, Payload, Store, is_live,
}
use dreamchat_image_platform.Jobs.Queries.{
  job_key, lock_generation_job, mark_running, claim_preview_finalization, mark_completed,
  mark_failed, set_generation_job_cost, cancel_generation_job, retry_reset_generation_job,
}
use dreamchat_image_platform.Jobs.Persist.{
  PersistSuccess, insert_final_asset_and_complete_job, insert_preview_asset_and_mark_preview_ready,
}

-- The row that InsertGenerationJob writes.
unfoldable pub insert_generation_job :
    String → String → Option String → Option String → Payload → GenerationJob
insert_generation_job id tenant world token payload = record {
  id = id;
  tenant_id = tenant;
  world_id = world;
  status = queued;
  requested_by_token_id = token;
  asset_pack_id = none;
  input_payload = payload;
  preview_asset_ids = [];
  final_asset_ids = [];
  error_code = none;
  error_message = none;
  retryable = none;
  cost_reservation_id = none;
  cost_estimate_usd = 0;
  actual_cost_usd = none;
}

-- The row that InsertCompletedCacheHitJob and InsertCompletedPackReuseJob write.
unfoldable pub insert_completed_job :
    String → String → Option String → Option String → Payload → List String → GenerationJob
insert_completed_job id tenant world token payload finals = record {
  id = id;
  tenant_id = tenant;
  world_id = world;
  status = completed;
  requested_by_token_id = token;
  asset_pack_id = none;
  input_payload = payload;
  preview_asset_ids = [];
  final_asset_ids = finals;
  error_code = none;
  error_message = none;
  retryable = none;
  cost_reservation_id = none;
  cost_estimate_usd = 0;
  actual_cost_usd = some 0;
}

abbrev pub with_jobs : List GenerationJob → Store → Store
with_jobs jobs s = record s { jobs = jobs }

-- One transaction on the store: a creation with its reservation, a claim, a worker's output, a failure, or an administrator's
-- cancel and retry, whose status is read under the lock before.
pub data Step (s : Store) (t : Store) : Type 0 where
  created :
      (id tenant : String) (world token : Option String) (payload : Payload) (reservation : String)
      (estimate : ℕ)
      → find_row job_key id s.jobs ≡ none
      → t
        ≡ with_jobs
            (set_generation_job_cost id reservation estimate
              (insert_generation_job id tenant world token payload ∷ s.jobs))
            s
      → Step s t
  reused :
      (id tenant : String) (world token : Option String) (payload : Payload) (finals : List String)
      → find_row job_key id s.jobs ≡ none
      → t ≡ with_jobs (insert_completed_job id tenant world token payload finals ∷ s.jobs) s
      → Step s t
  claimed :
      (id tenant : String) (reservation : Option String) (jobs : List GenerationJob)
      → mark_running id tenant reservation s.jobs ≡ some jobs
      → t ≡ with_jobs jobs s
      → Step s t
  claimed_preview :
      (id tenant : String) (reservation : Option String) (jobs : List GenerationJob)
      → claim_preview_finalization id tenant reservation s.jobs ≡ some jobs
      → t ≡ with_jobs jobs s
      → Step s t
  final_stored :
      (id tenant : String) (params : StoredAsset) (forced : Bool) (slot : ArtifactSlot)
      (success : Option PersistSuccess) (reservation : Option String)
      → t
        ≡ (insert_final_asset_and_complete_job id tenant params forced slot success reservation s).1
      → Step s t
  preview_stored :
      (id tenant : String) (params : StoredAsset) (success : Option PersistSuccess)
      (reservation : Option String)
      → t ≡ (insert_preview_asset_and_mark_preview_ready id tenant params success reservation s).1
      → Step s t
  pack_completed :
      (id tenant : String) (finals : List String) (reservation : Option String)
      (jobs : List GenerationJob)
      → mark_completed id tenant finals reservation s.jobs ≡ some jobs
      → t ≡ with_jobs jobs s
      → Step s t
  marked_failed :
      (id tenant code message : String) (retryable : Bool) (reservation : Option String)
      (jobs : List GenerationJob)
      → mark_failed id tenant code message retryable reservation s.jobs ≡ some jobs
      → t ≡ with_jobs jobs s
      → Step s t
  admin_cancelled :
      (id tenant message : String) (status : JobStatus) (jobs : List GenerationJob)
      → lock_generation_job id tenant s.jobs ≡ some status
      → is_live status ≡ true
      → cancel_generation_job id tenant message s.jobs ≡ some jobs
      → t ≡ with_jobs jobs s
      → Step s t
  admin_retried :
      (id tenant reservation : String) (estimate : ℕ) (jobs : List GenerationJob)
      → lock_generation_job id tenant s.jobs ≡ some failed
      → retry_reset_generation_job id tenant reservation estimate s.jobs ≡ some jobs
      → t ≡ with_jobs jobs s
      → Step s t

pub data Reach (s : Store) : Store → Type 0 where
  here : Reach s s
  next : {t u : Store} → Reach s t → Step t u → Reach s u
