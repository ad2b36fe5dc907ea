-- ===== src/Jobs/Changes.antt =====
-- Proofs about one step: it leaves the rows of the jobs, adds one with a new id, or updates the row of
-- one id in a way that keeps the id, the tenant and what makes a row coherent.
use dreamchat_image_platform.Common.{
  ℕ, String, Bool, ◌==◌, Option, none, some, List, [], ◌∷◌, ◌≡◌, refl, eq_refl, Bool-cases,
  Option-cases, inl, inr,
}
use dreamchat_image_platform.Common.Tables.{find_row, update_row}
use dreamchat_image_platform.Assets.Supersede.{StoredAsset, ArtifactSlot}
use dreamchat_image_platform.Jobs.{
  JobStatus, queued, running, preview_ready, completed, failed, cancelled, GenerationJob, Payload,
  Store,
}
use dreamchat_image_platform.Jobs.Queries.{job_key, set_generation_job_cost}
use dreamchat_image_platform.Jobs.Persist.{
  PersistSuccess, PersistResult, persist_success, write_output, final_by_status, final_locked,
  preview_by_status, preview_locked, insert_final_asset_and_complete_job,
  insert_preview_asset_and_mark_preview_ready,
}
use dreamchat_image_platform.Jobs.Coherence.{
  Change, same, added, mark_running-Change, mark_preview_ready-Change, mark_completed-Change,
  mark_failed-Change, claim_preview_finalization-Change, cancel_generation_job-Change,
  retry_reset_generation_job-Change,
}
use dreamchat_image_platform.Jobs.Steps.{
  Step, created, reused, claimed, claimed_preview, final_stored, preview_stored, pack_completed,
  marked_failed, admin_cancelled, admin_retried, insert_generation_job, insert_completed_job,
}

persist_success-jobs :
    (success : Option PersistSuccess) (asset : String) (st st' : Store)
    → persist_success success asset st ≡ some st'
    → st'.jobs ≡ st.jobs
unfolding persist_success
persist_success-jobs none asset st st' h = cc
persist_success-jobs (some success) asset st st' h = elim (Bool-cases (success.attempt_id == "")) [
  | inl e ↦ cc (rw (e, persist_success) at h)
  | inr e ↦ cc (rw (e, persist_success) at h)
]

-- What the transaction of an output does to the jobs: nothing, or the transition of the row.
write_output-Change :
    (assets : List StoredAsset) (marked : Option (List GenerationJob))
    (success : Option PersistSuccess) (asset : String) (st : Store)
    → ((rows : List GenerationJob) → marked ≡ some rows → Change st.jobs rows)
    → Change st.jobs (write_output assets marked success asset st).1.jobs
unfolding write_output
write_output-Change assets none success asset st h = same refl
write_output-Change assets (some rows) success asset st h =
    let st' : Store = record st { assets = assets; jobs = rows } in
    elim (Option-cases (persist_success success asset st')) [
      | inl e ↦ rw (e, write_output) (same refl)
      | inr (t, e) ↦ rw (e, write_output, persist_success-jobs success asset st' t e) (h rows refl)
    ]

module _ (P : Store → Type 0) (output : PersistResult × Store) (st : Store) where
  -- What holds of the store before and of the output's store holds of the store that either decision
  -- leaves.
  final_by_status-either : (s : JobStatus) → P st → P output.1 → P (final_by_status s output st).1
  unfolding final_by_status
  final_by_status-either queued kept wrote = kept
  final_by_status-either running kept wrote = wrote
  final_by_status-either preview_ready kept wrote = wrote
  final_by_status-either completed kept wrote = kept
  final_by_status-either failed kept wrote = kept
  final_by_status-either cancelled kept wrote = kept

  pub final_locked-either :
      (locked : Option GenerationJob) (reservation : Option String)
      → P st
      → P output.1
      → P (final_locked locked reservation output st).1
  unfolding final_locked
  final_locked-either none reservation kept wrote = kept
  final_locked-either (some j) reservation kept wrote = final_by_status-either j.status kept wrote

  preview_by_status-either :
      (s : JobStatus) → P st → P output.1 → P (preview_by_status s output st).1
  unfolding preview_by_status
  preview_by_status-either queued kept wrote = kept
  preview_by_status-either running kept wrote = wrote
  preview_by_status-either preview_ready kept wrote = kept
  preview_by_status-either completed kept wrote = kept
  preview_by_status-either failed kept wrote = kept
  preview_by_status-either cancelled kept wrote = kept

  pub preview_locked-either :
      (locked : Option GenerationJob) (reservation : Option String)
      → P st
      → P output.1
      → P (preview_locked locked reservation output st).1
  unfolding preview_locked
  preview_locked-either none reservation kept wrote = kept
  preview_locked-either (some j) reservation kept wrote =
      preview_by_status-either j.status kept wrote

insert_final-Change :
    (id tenant : String) (params : StoredAsset) (forced : Bool) (slot : ArtifactSlot)
    (success : Option PersistSuccess) (reservation : Option String) (st : Store)
    → Change st.jobs
        (insert_final_asset_and_complete_job id tenant params forced slot success reservation
          st).1.jobs
unfolding insert_final_asset_and_complete_job
insert_final-Change id tenant params forced slot success reservation st =
    final_locked-either (λ t. Change st.jobs t.jobs) _ st _ reservation (same refl)
      (write_output-Change _ _ success params.id st
        (mark_completed-Change id tenant (params.id ∷ []) reservation st.jobs))

insert_preview-Change :
    (id tenant : String) (params : StoredAsset) (success : Option PersistSuccess)
    (reservation : Option String) (st : Store)
    → Change st.jobs
        (insert_preview_asset_and_mark_preview_ready id tenant params success reservation st).1.jobs
unfolding insert_preview_asset_and_mark_preview_ready
insert_preview-Change id tenant params success reservation st =
    preview_locked-either (λ t. Change st.jobs t.jobs) _ st _ reservation (same refl)
      (write_output-Change _ _ success params.id st
        (mark_preview_ready-Change id tenant params.id reservation st.jobs))

-- A new row is coherent, and takes an id that no row had.
created-Change :
    (id tenant : String) (world token : Option String) (payload : Payload) (reservation : String)
    (estimate : ℕ) (rows : List GenerationJob)
    → find_row job_key id rows ≡ none
    → Change rows (
        set_generation_job_cost id reservation estimate
          (insert_generation_job id tenant world token payload ∷ rows))
unfolding set_generation_job_cost update_row insert_generation_job
created-Change id tenant world token payload reservation estimate rows fresh =
    let j : GenerationJob = record (insert_generation_job id tenant world token payload) {
      cost_reservation_id = some reservation;
      cost_estimate_usd = estimate;
    } in
    added j fresh (λ _. refl, λ t. cc, refl) (rw (eq_refl id) refl)

reused-Change :
    (id tenant : String) (world token : Option String) (payload : Payload) (finals : List String)
    (rows : List GenerationJob)
    → find_row job_key id rows ≡ none
    → Change rows (insert_completed_job id tenant world token payload finals ∷ rows)
unfolding insert_completed_job
reused-Change id tenant world token payload finals rows fresh =
    added (insert_completed_job id tenant world token payload finals) fresh (λ t. cc, λ t. cc, refl)
      refl

pub Step-Change : (s t : Store) → Step s t → Change s.jobs t.jobs
Step-Change s t (created id tenant world token payload reservation estimate fresh e) =
    rw e (created-Change id tenant world token payload reservation estimate s.jobs fresh)
Step-Change s t (reused id tenant world token payload finals fresh e) =
    rw e (reused-Change id tenant world token payload finals s.jobs fresh)
Step-Change s t (claimed id tenant reservation jobs h e) =
    rw e (mark_running-Change id tenant reservation s.jobs jobs h)
Step-Change s t (claimed_preview id tenant reservation jobs h e) =
    rw e (claim_preview_finalization-Change id tenant reservation s.jobs jobs h)
Step-Change s t (final_stored id tenant params forced slot success reservation e) =
    rw e (insert_final-Change id tenant params forced slot success reservation s)
Step-Change s t (preview_stored id tenant params success reservation e) =
    rw e (insert_preview-Change id tenant params success reservation s)
Step-Change s t (pack_completed id tenant finals reservation jobs h e) =
    rw e (mark_completed-Change id tenant finals reservation s.jobs jobs h)
Step-Change s t (marked_failed id tenant code message retryable reservation jobs h e) =
    rw e (mark_failed-Change id tenant code message retryable reservation s.jobs jobs h)
Step-Change s t (admin_cancelled id tenant message status jobs locked live h e) =
    rw e (cancel_generation_job-Change id tenant message status s.jobs jobs locked live h)
Step-Change s t (admin_retried id tenant reservation estimate jobs locked h e) =
    rw e (retry_reset_generation_job-Change id tenant reservation estimate s.jobs jobs locked h)
