-- ===== src/Jobs/Coherence.antt =====
-- Proofs about the statements on generation_jobs: what makes a row coherent, and that each statement
-- that finds its row changes it from a live or a failed one to a coherent one.
use dreamchat_image_platform.Common.{
  ℕ, String, Bool, true, false, ◌&&◌, ◌||◌, ◌==◌, Option, none, some, List, [], ◌∷◌, if◌then◌else◌,
  is_empty, ◌≡◌, refl, arith, eq_iff, Bool-cases, Option-cases, inl, inr, &&_split,
}
use dreamchat_image_platform.Common.Tables.{find_row, update_row}
use dreamchat_image_platform.Jobs.{
  JobStatus, queued, running, preview_ready, completed, failed, cancelled, GenerationJob, is_live,
  is_queued, is_running, is_completed, is_preview_ready, is_failed, is_cancelled,
}
use dreamchat_image_platform.Jobs.Queries.{
  job_key, update_job, lock_generation_job, mark_running, claim_preview_finalization,
  mark_completed, mark_preview_ready, set_cancelled, reset_for_retry, mark_failed,
  cancel_generation_job, retry_reset_generation_job,
}

abbrev pub is_unsuccessful : JobStatus → Bool
is_unsuccessful s = is_failed s || is_cancelled s

abbrev pub is_settled : JobStatus → Bool
is_settled s = is_completed s || is_cancelled s

abbrev is_some : Option String → Bool
is_some none = false
is_some (some s) = true

-- Final assets only on a completed job, a preview on every job that is ready to preview, and an error
-- code exactly on a job that failed or was cancelled.
abbrev pub IsCoherent : GenerationJob → Type 0
IsCoherent j =
    (is_completed j.status ≡ false → j.final_asset_ids ≡ [])
    × (is_preview_ready j.status ≡ true → is_empty j.preview_asset_ids ≡ false)
    × (is_some j.error_code ≡ is_unsuccessful j.status)

pub data Change (rows rows' : List GenerationJob) : Type 0 where
  same : rows' ≡ rows → Change rows rows'
  added :
      (j : GenerationJob)
      → find_row job_key j.id rows ≡ none
      → IsCoherent j
      → rows' ≡ j ∷ rows
      → Change rows rows'
  updated :
      (id : String) (j : GenerationJob) (set : GenerationJob → GenerationJob)
      → find_row job_key id rows ≡ some j
      → is_settled j.status ≡ false
      → ((i : GenerationJob) → (set i).id ≡ i.id)
      → ((i : GenerationJob) → (set i).tenant_id ≡ i.tenant_id)
      → (IsCoherent j → IsCoherent (set j))
      → rows' ≡ update_row job_key id set rows
      → Change rows rows'

-- The row that an UPDATE with RETURNING has found.
pub update_job-some :
    (guard : GenerationJob → Bool) (set : GenerationJob → GenerationJob) (id tenant : String)
    (rows rows' : List GenerationJob)
    → update_job guard set id tenant rows ≡ some rows'
    → (j : GenerationJob) × (find_row job_key id rows ≡ some j)
      × (j.tenant_id ≡ tenant)
      × (guard j ≡ true)
      × (rows' ≡ update_row job_key id set rows)
unfolding update_job
update_job-some guard set id tenant rows rows' h = elim (Option-cases (find_row job_key id rows)) [
  | inl e ↦ cc (rw (e, update_job) at h)
  | inr (j, e) ↦ elim (Bool-cases (j.tenant_id == tenant && guard j)) [
    | inl passes ↦
        let (t, g) = &&_split (j.tenant_id == tenant) (guard j) passes in
        (j, e, (eq_iff j.tenant_id tenant).0 t, g, cc (rw (e, update_job, passes) at h))
    | inr fails ↦ cc (rw (e, update_job, fails) at h)
  ]
]

update_job-Change :
    (guard : GenerationJob → Bool) (set : GenerationJob → GenerationJob) (id tenant : String)
    (rows rows' : List GenerationJob)
    → ((i : GenerationJob) → (set i).id ≡ i.id)
    → ((i : GenerationJob) → (set i).tenant_id ≡ i.tenant_id)
    → ((j : GenerationJob) → guard j ≡ true → is_settled j.status ≡ false)
    → ((j : GenerationJob) → guard j ≡ true → IsCoherent j → IsCoherent (set j))
    → update_job guard set id tenant rows ≡ some rows'
    → Change rows rows'
update_job-Change guard set id tenant rows rows' keeps keeps_tenant active coherent h =
    let (j, found, of_tenant, passed, e) = update_job-some guard set id tenant rows rows' h in
    updated id j set found (active j passed) keeps keeps_tenant (coherent j passed) e

-- Every row under the lock is unsettled, as the caller has read, and so is the row that is updated.
pub lock_generation_job-some :
    (id tenant : String) (status : JobStatus) (rows : List GenerationJob)
    → lock_generation_job id tenant rows ≡ some status
    → (j : GenerationJob) × (find_row job_key id rows ≡ some j) × (j.status ≡ status)
unfolding lock_generation_job
lock_generation_job-some id tenant status rows h = elim (Option-cases (find_row job_key id rows)) [
  | inl e ↦ cc (rw (e, lock_generation_job) at h)
  | inr (j, e) ↦ elim (Bool-cases (j.tenant_id == tenant)) [
    | inl passes ↦ (j, e, cc (rw (e, lock_generation_job, passes) at h))
    | inr fails ↦ cc (rw (e, lock_generation_job, fails) at h)
  ]
]

live_lem :
    (s : JobStatus)
    → is_live s ≡ true
    → (is_settled s ≡ false) × (is_completed s ≡ false) × (is_unsuccessful s ≡ false)
live_lem queued h = (refl, refl, refl)
live_lem running h = (refl, refl, refl)
live_lem preview_ready h = (refl, refl, refl)
live_lem completed h = cc
live_lem failed h = cc
live_lem cancelled h = cc

queued_live : (s : JobStatus) → is_queued s ≡ true → is_live s ≡ true
queued_live queued h = refl
queued_live running h = cc
queued_live preview_ready h = cc
queued_live completed h = cc
queued_live failed h = cc
queued_live cancelled h = cc

running_live : (s : JobStatus) → is_running s ≡ true → is_live s ≡ true
running_live queued h = cc
running_live running h = refl
running_live preview_ready h = cc
running_live completed h = cc
running_live failed h = cc
running_live cancelled h = cc

preview_ready_live : (s : JobStatus) → is_preview_ready s ≡ true → is_live s ≡ true
preview_ready_live queued h = cc
preview_ready_live running h = cc
preview_ready_live preview_ready h = refl
preview_ready_live completed h = cc
preview_ready_live failed h = cc
preview_ready_live cancelled h = cc

claimed_live :
    (s : JobStatus)
    → (is_preview_ready s || is_queued s) ≡ true
    → is_live (if is_queued s then running else s) ≡ true
claimed_live queued h = refl
claimed_live running h = cc
claimed_live preview_ready h = refl
claimed_live completed h = cc
claimed_live failed h = cc
claimed_live cancelled h = cc

-- A row that is still live has no final asset and no error.
live-IsCoherent :
    (j : GenerationJob)
    → is_live j.status ≡ true
    → IsCoherent j
    → (j.final_asset_ids ≡ []) × (is_some j.error_code ≡ false)
live-IsCoherent j h (finals, previews, errors) =
    let (settled, unfinished, no_error) = live_lem j.status h in
    (finals unfinished, rw no_error at errors)

update_live-Change :
    (guard : GenerationJob → Bool) (set : GenerationJob → GenerationJob) (id tenant : String)
    (rows rows' : List GenerationJob)
    → ((i : GenerationJob) → (set i).id ≡ i.id)
    → ((i : GenerationJob) → (set i).tenant_id ≡ i.tenant_id)
    → ((j : GenerationJob) → guard j ≡ true → is_live j.status ≡ true)
    → ((j : GenerationJob)
        → guard j ≡ true
        → j.final_asset_ids ≡ []
        → is_some j.error_code ≡ false
        → IsCoherent (set j))
    → update_job guard set id tenant rows ≡ some rows'
    → Change rows rows'
update_live-Change guard set id tenant rows rows' keeps keeps_tenant live coherent =
    update_job-Change guard set id tenant rows rows' keeps keeps_tenant
      (λ j g. (live_lem j.status (live j g)).0)
      (λ j g c. let (finals, errors) = live-IsCoherent j (live j g) c in coherent j g finals errors)

pub mark_running-Change :
    (id tenant : String) (reservation : Option String) (rows rows' : List GenerationJob)
    → mark_running id tenant reservation rows ≡ some rows'
    → Change rows rows'
unfolding mark_running
mark_running-Change id tenant reservation rows rows' =
    update_live-Change _ _ id tenant rows rows' (λ i. refl) (λ i. refl)
      (λ j g. queued_live j.status (&&_split (is_queued j.status) _ g).0)
      (λ j g finals errors. (λ _. finals, λ t. cc, errors))

pub mark_preview_ready-Change :
    (id tenant asset : String) (reservation : Option String) (rows rows' : List GenerationJob)
    → mark_preview_ready id tenant (asset ∷ []) reservation rows ≡ some rows'
    → Change rows rows'
unfolding mark_preview_ready
mark_preview_ready-Change id tenant asset reservation rows rows' =
    update_live-Change _ _ id tenant rows rows' (λ i. refl) (λ i. refl)
      (λ j g. running_live j.status (&&_split (is_running j.status) _ g).0)
      (λ j g finals errors. (λ _. finals, λ _. refl, errors))

pub mark_completed-Change :
    (id tenant : String) (finals : List String) (reservation : Option String)
    (rows rows' : List GenerationJob)
    → mark_completed id tenant finals reservation rows ≡ some rows'
    → Change rows rows'
unfolding mark_completed
mark_completed-Change id tenant finals reservation rows rows' =
    update_live-Change _ _ id tenant rows rows' (λ i. refl) (λ i. refl)
      (λ j g. ground (arith, running_live j.status, preview_ready_live j.status))
      (λ j g finals errors. (λ t. cc, λ t. cc, errors))

pub mark_failed-Change :
    (id tenant code message : String) (retryable : Bool) (reservation : Option String)
    (rows rows' : List GenerationJob)
    → mark_failed id tenant code message retryable reservation rows ≡ some rows'
    → Change rows rows'
unfolding mark_failed
mark_failed-Change id tenant code message retryable reservation rows rows' =
    update_live-Change _ _ id tenant rows rows' (λ i. refl) (λ i. refl)
      (λ j g. (&&_split (is_live j.status) _ g).0)
      (λ j g finals errors. (λ _. finals, λ t. cc, refl))

pub claim_preview_finalization-Change :
    (id tenant : String) (reservation : Option String) (rows rows' : List GenerationJob)
    → claim_preview_finalization id tenant reservation rows ≡ some rows'
    → Change rows rows'
unfolding claim_preview_finalization
claim_preview_finalization-Change id tenant reservation rows rows' =
    update_live-Change _ _ id tenant rows rows' (λ i. refl) (λ i. refl)
      (λ j g. ground (arith, queued_live j.status, preview_ready_live j.status))
      (λ j g finals errors.
        let (_, unfinished, no_error) =
          live_lem (if is_queued j.status then running else j.status)
            (claimed_live j.status (&&_split _ _ g).0) in
        (λ _. finals, λ _. ground arith, rw no_error errors))

pub cancel_generation_job-Change :
    (id tenant message : String) (status : JobStatus) (rows rows' : List GenerationJob)
    → lock_generation_job id tenant rows ≡ some status
    → is_live status ≡ true
    → cancel_generation_job id tenant message rows ≡ some rows'
    → Change rows rows'
unfolding cancel_generation_job
cancel_generation_job-Change id tenant message status rows rows' locked live h =
    let (j, found, e) = lock_generation_job-some id tenant status rows locked in
    let (_, _, _, _, changed) = update_job-some _ _ id tenant rows rows' h in
    let live' : is_live j.status ≡ true = rw e live in
    updated id j (set_cancelled message) found (live_lem j.status live').0 (λ i. refl) (λ i. refl)
      (λ c. (λ _. (live-IsCoherent j live' c).0, λ t. cc, refl)) changed

pub retry_reset_generation_job-Change :
    (id tenant reservation : String) (estimate : ℕ) (rows rows' : List GenerationJob)
    → lock_generation_job id tenant rows ≡ some failed
    → retry_reset_generation_job id tenant reservation estimate rows ≡ some rows'
    → Change rows rows'
unfolding retry_reset_generation_job
retry_reset_generation_job-Change id tenant reservation estimate rows rows' locked h =
    let (j, found, e) = lock_generation_job-some id tenant failed rows locked in
    let (_, _, _, _, changed) = update_job-some _ _ id tenant rows rows' h in
    updated id j (reset_for_retry reservation estimate) found (rw e refl) (λ i. refl) (λ i. refl)
      (λ c. (λ _. refl, λ t. cc, refl)) changed
