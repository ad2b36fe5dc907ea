-- ===== src/Jobs/Stale.antt =====
-- Proofs about a task of an old reservation: no statement finds the row, and no output is stored.
use dreamchat_image_platform.Common.{
  String, Bool, false, ◌==◌, Option, none, some, List, ◌≡◌, refl, arith, Bool-cases, inl, inr,
}
use dreamchat_image_platform.Common.Tables.{find_row}
use dreamchat_image_platform.Assets.Supersede.{StoredAsset, ArtifactSlot}
use dreamchat_image_platform.Jobs.{GenerationJob, Store}
use dreamchat_image_platform.Jobs.Queries.{
  job_key, owns, lock_generation_job_row, mark_failed, mark_running, claim_preview_finalization,
  mark_completed, update_job,
}
use dreamchat_image_platform.Jobs.Persist.{
  PersistSuccess, ok, already_terminal, final_locked, preview_locked,
  insert_final_asset_and_complete_job, insert_preview_asset_and_mark_preview_ready,
}

pub update_job-none :
    (guard : GenerationJob → Bool) (set : GenerationJob → GenerationJob) (id tenant : String)
    (j : GenerationJob) (rows : List GenerationJob)
    → find_row job_key id rows ≡ some j
    → guard j ≡ false
    → update_job guard set id tenant rows ≡ none
unfolding update_job
update_job-none guard set id tenant j rows found h =
    rw (found, update_job)
      (elim (Bool-cases (j.tenant_id == tenant)) [ inl e ↦ rw (e, h) refl | inr e ↦ rw e refl ])

lock_generation_job_row-none :
    (id tenant : String) (reservation : Option String) (j : GenerationJob)
    (rows : List GenerationJob)
    → find_row job_key id rows ≡ some j
    → owns reservation j ≡ false
    → lock_generation_job_row id tenant reservation rows ≡ none
unfolding lock_generation_job_row
lock_generation_job_row-none id tenant reservation j rows found h =
    rw (found, lock_generation_job_row)
      (elim (Bool-cases (j.tenant_id == tenant)) [ inl e ↦ rw (e, h) refl | inr e ↦ rw e refl ])

-- A reservation that does not hold the job any more, as after a retry, reaches nothing: the outputs
-- report that the job is already terminal and leave the store, and no claim, completion or failure
-- finds its row.
pub stale_reservation_lem :
    (id tenant reservation : String) (j : GenerationJob) (st : Store)
    → find_row job_key id st.jobs ≡ some j
    → owns (some reservation) j ≡ false
    → (params : StoredAsset) (forced : Bool) (slot : ArtifactSlot) (success : Option PersistSuccess)
      (ids : List String) (code message : String) (retryable : Bool)
    → (insert_final_asset_and_complete_job id tenant params forced slot success
          (some reservation)
          st
        ≡ (ok already_terminal, st))
      × (insert_preview_asset_and_mark_preview_ready id tenant params success (some reservation) st
          ≡ (ok already_terminal, st))
      × (mark_running id tenant (some reservation) st.jobs ≡ none)
      × (claim_preview_finalization id tenant (some reservation) st.jobs ≡ none)
      × (mark_completed id tenant ids (some reservation) st.jobs ≡ none)
      × (mark_failed id tenant code message retryable (some reservation) st.jobs ≡ none)
unfolding insert_final_asset_and_complete_job insert_preview_asset_and_mark_preview_ready
    final_locked preview_locked mark_running claim_preview_finalization mark_completed mark_failed
stale_reservation_lem id tenant reservation j st found stale params forced slot success ids code
      message retryable =
    let absent = lock_generation_job_row-none id tenant (some reservation) j st.jobs found stale in
    (
      rw absent refl,
      rw absent refl,
      update_job-none _ _ id tenant j st.jobs found (ground (arith, stale)),
      update_job-none _ _ id tenant j st.jobs found (ground (arith, stale)),
      update_job-none _ _ id tenant j st.jobs found (ground (arith, stale)),
      update_job-none _ _ id tenant j st.jobs found (ground (arith, stale)),
    )
