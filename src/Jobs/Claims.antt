-- ===== src/Jobs/Claims.antt =====
-- Proofs about claims and terminal failures: of two first deliveries at most one claims, and a failure
-- releases the reservation exactly with the transition.
use dreamchat_image_platform.Common.{
  ℕ, String, Bool, true, false, ◌&&◌, ◌||◌, ◌==◌, leb, ◌+◌, Option, none, some, List, ◌≡◌, refl,
  ◌↔◌, ◌⊎◌, ◌≤◌, subst, inl, inr, Bool-cases, arith, eq_refl,
}
use dreamchat_image_platform.Common.Tables.{find_row, update_row, find_row-update_row}
use dreamchat_image_platform.Cost.Lifecycle.{release, finalize}
use dreamchat_image_platform.Jobs.{failed, GenerationJob, Store, is_queued, is_running, is_live}
use dreamchat_image_platform.Jobs.Coherence.{update_job-some}
use dreamchat_image_platform.Jobs.Stale.{update_job-none}
use dreamchat_image_platform.Jobs.Fallback.{
  GenerationError, storage_failure, persistence_error, max_megapixels_exceeded,
  provider_unavailable, content_policy_rejected, provider_unpaid, reference_required,
  billable_cap_reached, provider_failed, error_code_for, terminal_generation_error, max_attempts,
}
use dreamchat_image_platform.Jobs.Queries.{
  job_key, owns, update_job, mark_running, set_running, claim_preview_finalization,
  claim_finalization, may_finalize, mark_failed, set_failed,
}
use dreamchat_image_platform.Jobs.Steps.{with_jobs}
use dreamchat_image_platform.Jobs.Worker.{
  Tables, expected_of, or_empty, claimed_with, claim_queued_job, claim_final_phase,
  finalize_reservation, fail_terminal, fail_job_on_final_attempt, after_failed_walk,
}

-- The row that an update of the job has left.
update_job-found :
    (guard : GenerationJob → Bool) (set : GenerationJob → GenerationJob) (id tenant : String)
    (rows rows' : List GenerationJob)
    → ((j : GenerationJob) → (set j).id ≡ j.id)
    → update_job guard set id tenant rows ≡ some rows'
    → (j : GenerationJob) × (guard j ≡ true) × (find_row job_key id rows' ≡ some (set j))
update_job-found guard set id tenant rows rows' keeps h =
    let (j, found, _, passed, e) = update_job-some guard set id tenant rows rows' h in
    (j, passed, rw (e, find_row-update_row job_key id id set rows keeps, eq_refl id, found) refl)

mark_running-closed :
    (id tenant tenant' : String) (r r' : Option String) (rows rows' : List GenerationJob)
    → mark_running id tenant r rows ≡ some rows'
    → mark_running id tenant' r' rows' ≡ none
unfolding mark_running
mark_running-closed id tenant tenant' r r' rows rows' h =
    let (j, _, after) =
      update_job-found (λ i. is_queued i.status && owns r i) set_running id tenant rows rows'
        (λ i. refl) h in
    update_job-none (λ i. is_queued i.status && owns r' i) set_running id tenant' (set_running j)
      rows' after refl

claim_preview_finalization-closed :
    (id tenant tenant' : String) (r r' : Option String) (rows rows' : List GenerationJob)
    → claim_preview_finalization id tenant r rows ≡ some rows'
    → claim_preview_finalization id tenant' r' rows' ≡ none
unfolding claim_preview_finalization
claim_preview_finalization-closed id tenant tenant' r r' rows rows' h =
    let (j, _, after) =
      update_job-found (may_finalize r) claim_finalization id tenant rows rows' (λ i. refl) h in
    update_job-none (may_finalize r') claim_finalization id tenant' (claim_finalization j) rows'
      after (ground arith)

claimed_with-true :
    (st : Store) (marked : Option (List GenerationJob))
    → (claimed_with st marked).0 ≡ true
    → (jobs : List GenerationJob) × (marked ≡ some jobs)
      × ((claimed_with st marked).1 ≡ with_jobs jobs st)
claimed_with-true st none h = cc
claimed_with-true st (some jobs) h = (jobs, refl, refl)

claim_queued_job-idle :
    (job : GenerationJob) (expected : String) (st : Store)
    → mark_running job.id job.tenant_id (expected_of expected) st.jobs ≡ none
    → claim_queued_job job 0 expected st ≡ (false, st)
unfolding claim_queued_job
claim_queued_job-idle job expected st h = elim (Bool-cases (is_queued job.status)) [
  | inl q ↦ rw (q, claim_queued_job, h) refl
  | inr q ↦ rw (q, claim_queued_job) (ground arith)
]

-- A first delivery claims only by the update of the row.
claim_queued_job-claimed :
    (job : GenerationJob) (expected : String) (st : Store)
    → (claim_queued_job job 0 expected st).0 ≡ true
    → (jobs : List GenerationJob) × (mark_running job.id job.tenant_id
          (expected_of expected)
          st.jobs
        ≡ some jobs)
      × ((claim_queued_job job 0 expected st).1 ≡ with_jobs jobs st)
unfolding claim_queued_job
claim_queued_job-claimed job expected st h = elim (Bool-cases (is_queued job.status)) [
  | inl q ↦
      let (jobs, e, after) = claimed_with-true st _ (rw (q, claim_queued_job) at h) in
      (jobs, e, rw (q, claim_queued_job) after)
  | inr q ↦
      let claimed : (is_running job.status && false) ≡ true = rw (q, claim_queued_job) at h in
      let unclaimed : (is_running job.status && false) ≡ false = ground arith in cc
]

-- Of two first deliveries of one job, each with the row as it has read it, at most one may call the
-- providers: where the first delivery has claimed the job, the second claims nothing and changes nothing,
-- and the same holds of the final phase of a preview.
pub first_claims_lem :
    (job job' : GenerationJob) (expected expected' : String) (st : Store)
    → job.id ≡ job'.id
    → ((claim_queued_job job 0 expected st).0 ≡ true
        → claim_queued_job job' 0 expected' (claim_queued_job job 0 expected st).1
          ≡ (false, (claim_queued_job job 0 expected st).1))
      × ((claim_final_phase job 0 expected st).0 ≡ true
          → claim_final_phase job' 0 expected' (claim_final_phase job 0 expected st).1
            ≡ (false, (claim_final_phase job 0 expected st).1))
unfolding claim_final_phase
first_claims_lem job job' expected expected' st same = (
  λ h.
      let (jobs, e, after) = claim_queued_job-claimed job expected st h in
      rw after (
        claim_queued_job-idle job' expected' (with_jobs jobs st) (
          mark_running-closed job'.id job.tenant_id job'.tenant_id (expected_of expected)
            (expected_of expected') st.jobs jobs (rw same at e))),
  λ h.
      let (jobs, e, after) = claimed_with-true st _ h in
      let closed =
        claim_preview_finalization-closed job'.id job.tenant_id job'.tenant_id
          (expected_of expected) (expected_of expected') st.jobs jobs (rw same at e) in
      rw (after, closed) refl,
)

update_job-passes :
    (guard : GenerationJob → Bool) (set : GenerationJob → GenerationJob) (id tenant : String)
    (j : GenerationJob) (rows : List GenerationJob)
    → find_row job_key id rows ≡ some j
    → j.tenant_id ≡ tenant
    → guard j ≡ true
    → update_job guard set id tenant rows ≡ some (update_row job_key id set rows)
unfolding update_job
update_job-passes guard set id tenant j rows found of_tenant passed =
    let own : (j.tenant_id == tenant) ≡ true = rw of_tenant (eq_refl tenant) in
    rw (update_job, found, own, passed) refl

-- A failure that finds its row live.
fail_terminal-failed :
    (job j : GenerationJob) (code message expected : String) (w : Tables)
    → find_row job_key job.id w.store.jobs ≡ some j
    → j.tenant_id ≡ job.tenant_id
    → is_live j.status ≡ true
    → owns (expected_of expected) j ≡ true
    → (find_row job_key job.id (fail_terminal job code message expected w).1.store.jobs
        ≡ some (set_failed code message false j))
      × ((fail_terminal job code message expected w).1.db
          ≡ finalize release job.id (or_empty job.cost_reservation_id) w.db)
unfolding fail_terminal mark_failed finalize_reservation
fail_terminal-failed job j code message expected w found of_tenant live owned =
    let marked =
      update_job-passes (λ i. is_live i.status && owns (expected_of expected) i)
        (set_failed code message false) job.id job.tenant_id j w.store.jobs found of_tenant
        (rw (live, owned) refl) in
    rw marked (
      rw
          (
            find_row-update_row job_key job.id job.id (set_failed code message false) w.store.jobs
                (λ i. refl),
            eq_refl job.id,
            found,
          )
          refl,
      refl,
    )

-- A failure that finds no live row of its reservation.
fail_terminal-late :
    (job j : GenerationJob) (code message expected : String) (w : Tables)
    → find_row job_key job.id w.store.jobs ≡ some j
    → (is_live j.status && owns (expected_of expected) j) ≡ false
    → (fail_terminal job code message expected w).1 ≡ w
unfolding fail_terminal mark_failed
fail_terminal-late job j code message expected w found late =
    rw
      (update_job-none (λ i. is_live i.status && owns (expected_of expected) i)
        (set_failed code message false) job.id job.tenant_id j w.store.jobs found late)
      refl

-- When a walk's error ends the job: a rejection by a content policy, the cap on billed calls, a provider
-- that is not paid, or the third attempt.
abbrev pub Ends : GenerationError → ℕ → Type 0
Ends e retry_count =
    (e ≡ content_policy_rejected)
    ⊎ ((e ≡ billable_cap_reached) ⊎ ((e ≡ provider_unpaid) ⊎ (2 ≤ retry_count)))

-- The code that a failed job shows for an error.
abbrev pub shown_code : GenerationError → String
shown_code storage_failure = "storage_failure"
shown_code persistence_error = "persistence_error"
shown_code max_megapixels_exceeded = "max_megapixels_exceeded"
shown_code provider_unavailable = "provider_unavailable"
shown_code content_policy_rejected = "provider_content_rejected"
shown_code provider_unpaid = "provider_unpaid"
shown_code reference_required = "missing_reference_assets"
shown_code billable_cap_reached = "provider_failure"
shown_code provider_failed = "provider_failure"

error_code_for_lem : (e : GenerationError) → error_code_for e ≡ shown_code e
unfolding error_code_for
error_code_for_lem storage_failure = refl
error_code_for_lem persistence_error = refl
error_code_for_lem max_megapixels_exceeded = refl
error_code_for_lem provider_unavailable = refl
error_code_for_lem content_policy_rejected = refl
error_code_for_lem provider_unpaid = refl
error_code_for_lem reference_required = refl
error_code_for_lem billable_cap_reached = refl
error_code_for_lem provider_failed = refl

ends : GenerationError → ℕ → Bool
ends e retry_count = terminal_generation_error e || leb max_attempts (retry_count + 1)

ends_iff : (e : GenerationError) (n : ℕ) → (ends e n ≡ true) ↔ Ends e n
unfolding ends
ends_iff storage_failure n = (λ h. ground arith, λ h. ground arith)
ends_iff persistence_error n = (λ h. ground arith, λ h. ground arith)
ends_iff max_megapixels_exceeded n = (λ h. ground arith, λ h. ground arith)
ends_iff provider_unavailable n = (λ h. ground arith, λ h. ground arith)
ends_iff content_policy_rejected n = (λ h. inl refl, λ h. refl)
ends_iff provider_unpaid n = (λ h. inr (inr (inl refl)), λ h. refl)
ends_iff reference_required n = (λ h. ground arith, λ h. ground arith)
ends_iff billable_cap_reached n = (λ h. inr (inl refl), λ h. refl)
ends_iff provider_failed n = (λ h. ground arith, λ h. ground arith)

after_failed_walk_live :
    (job j : GenerationJob) (e : GenerationError) (message : String) (retry_count : ℕ)
    (expected : String) (w : Tables)
    → find_row job_key job.id w.store.jobs ≡ some j
    → j.tenant_id ≡ job.tenant_id
    → is_live j.status ≡ true
    → owns (expected_of expected) j ≡ true
    → let w' = (after_failed_walk job e message retry_count expected w).1 in
      (ends e retry_count ≡ true
        → (find_row job_key job.id w'.store.jobs
            ≡ some (set_failed (error_code_for e) message false j))
          × (w'.db ≡ finalize release job.id (or_empty job.cost_reservation_id) w.db))
      × (ends e retry_count ≡ false → w' ≡ w)
unfolding after_failed_walk fail_job_on_final_attempt ends
after_failed_walk_live job j e message retry_count expected w found of_tenant live owned =
    let failed_row =
      fail_terminal-failed job j (error_code_for e) message expected w found of_tenant live owned in
    elim (Bool-cases (terminal_generation_error e)) [
      | inl t ↦ (λ _. rw (t, after_failed_walk) failed_row, λ n. cc (rw t at n))
      | inr t ↦ elim (Bool-cases (leb max_attempts (retry_count + 1))) [
        | inl l ↦ (
          λ _. rw (t, after_failed_walk, fail_job_on_final_attempt, l) failed_row,
          λ n. cc (rw (t, l) at n),
        )
        | inr l ↦ (
          λ n. cc (rw (t, l) at n),
          λ _. rw (t, after_failed_walk, fail_job_on_final_attempt, l) refl,
        )
      ]
    ]

-- A walk that failed, for a row that is live and of the delivery's reservation. If the error ends the job,
-- the row is failed, with the error's code, the message and not retryable and no other column changed,
-- and the reservation that was read is released; otherwise everything is left for the next attempt.
pub after_failed_walk-live :
    (job j : GenerationJob) (e : GenerationError) (message : String) (retry_count : ℕ)
    (expected : String) (w : Tables)
    → find_row job_key job.id w.store.jobs ≡ some j
    → j.tenant_id ≡ job.tenant_id
    → is_live j.status ≡ true
    → owns (expected_of expected) j ≡ true
    → let w' = (after_failed_walk job e message retry_count expected w).1 in
      (Ends e retry_count
        → (find_row job_key job.id w'.store.jobs
            ≡ some (record j {
              status = failed;
              error_code = some (shown_code e);
              error_message = some message;
              retryable = some false;
            }))
          × (w'.db ≡ finalize release job.id (or_empty job.cost_reservation_id) w.db))
      × (¬ Ends e retry_count → w' ≡ w)
after_failed_walk-live job j e message retry_count expected w found of_tenant live owned =
    let (ended, left) =
      after_failed_walk_live job j e message retry_count expected w found of_tenant live owned in
    let (to, from) = ends_iff e retry_count in
    (
      λ h.
          subst
            (λ c.
              (find_row job_key job.id
                  (after_failed_walk job e message retry_count expected w).1.store.jobs
                ≡ some (record j {
                  status = failed;
                  error_code = some c;
                  error_message = some message;
                  retryable = some false;
                }))
              × ((after_failed_walk job e message retry_count expected w).1.db
                  ≡ finalize release job.id (or_empty job.cost_reservation_id) w.db))
            (error_code_for_lem e) (ended (from h)),
      λ n. elim (Bool-cases (ends e retry_count)) [ inl h ↦ absurd (n (to h)) | inr h ↦ left h ],
    )

-- A walk that failed after its job was completed, cancelled or failed, or was taken over by another
-- reservation, changes nothing and releases nothing.
pub after_failed_walk-late :
    (job j : GenerationJob) (e : GenerationError) (message : String) (retry_count : ℕ)
    (expected : String) (w : Tables)
    → find_row job_key job.id w.store.jobs ≡ some j
    → (is_live j.status && owns (expected_of expected) j) ≡ false
    → (after_failed_walk job e message retry_count expected w).1 ≡ w
unfolding after_failed_walk fail_job_on_final_attempt
after_failed_walk-late job j e message retry_count expected w found late =
    let nothing = fail_terminal-late job j (error_code_for e) message expected w found late in
    elim (Bool-cases (terminal_generation_error e)) [
      | inl t ↦ rw (t, after_failed_walk) nothing
      | inr t ↦ elim (Bool-cases (leb max_attempts (retry_count + 1))) [
        | inl l ↦ rw (t, after_failed_walk, fail_job_on_final_attempt, l) nothing
        | inr l ↦ rw (t, after_failed_walk, fail_job_on_final_attempt, l) refl
      ]
    ]
