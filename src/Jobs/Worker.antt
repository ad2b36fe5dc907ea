-- ===== src/Jobs/Worker.antt =====
-- What internal/jobs/worker.go does around the provider calls: the claims of a job and of its final
-- phase, and the terminal failure with the release of the reservation. The webhook that follows a
-- transition is left out: it never changes what follows.
use dreamchat_image_platform.Common.{
  ℕ, String, Bool, true, false, not, ◌&&◌, ◌||◌, ◌==◌, nat_eq, ltb, leb, ◌+◌, Option, none, some,
  List, if◌then◌else◌,
}
use dreamchat_image_platform.Cost.{Db}
use dreamchat_image_platform.Cost.Lifecycle.{Target, commit, release, finalize}
use dreamchat_image_platform.Jobs.{
  JobStatus, completed, failed, cancelled, GenerationJob, Store, is_queued, is_running,
}
use dreamchat_image_platform.Jobs.Fallback.{
  GenerationError, error_code_for, terminal_generation_error, max_attempts,
}
use dreamchat_image_platform.Jobs.Queries.{mark_running, claim_preview_finalization, mark_failed}
use dreamchat_image_platform.Jobs.Steps.{with_jobs}

-- The tables that a worker writes: those of the jobs, and those of cost control behind its finalizer.
pub record Tables : Type 0 where
  pub store : Store
  pub db : Db

-- An empty expected reservation is none.
abbrev pub expected_of : String → Option String
expected_of reservation = if reservation == "" then none else some reservation

abbrev pub or_empty : Option String → String
or_empty none = ""
or_empty (some s) = s

abbrev pub claimed_with : Store → Option (List GenerationJob) → Bool × Store
claimed_with st none = (false, st)
claimed_with st (some jobs) = (true, with_jobs jobs st)

-- claimQueuedJob. `job` is the row that the worker has read before, which may be stale.
unfoldable pub claim_queued_job : GenerationJob → ℕ → String → Store → Bool × Store
claim_queued_job job retry_count expected st = elim (is_queued job.status) [
  | true ↦ claimed_with st (mark_running job.id job.tenant_id (expected_of expected) st.jobs)
  | false ↦ (is_running job.status && not (nat_eq retry_count 0), st)
]

-- The worker's claimPreviewFinalization
unfoldable pub claim_final_phase : GenerationJob → ℕ → String → Store → Bool × Store
claim_final_phase job retry_count expected st =
    elim (ltb 0 retry_count
      && (is_running job.status || job.input_payload.preview_finalization_claimed)) [
        | true ↦ (true, st)
        | false ↦
            claimed_with st
              (claim_preview_finalization job.id job.tenant_id (expected_of expected) st.jobs)
      ]

-- commitReservation and releaseReservation: the reservation of the row that was read, or by job.
unfoldable pub finalize_reservation : Target → GenerationJob → Tables → Tables
finalize_reservation target job w = record w {
  db = finalize target job.id (or_empty job.cost_reservation_id) w.db;
}

-- The release follows the transition, and only it.
abbrev pub released_with : GenerationJob → Tables → Option (List GenerationJob) → Bool × Tables
released_with job w none = (false, w)
released_with job w (some jobs) =
    (true, finalize_reservation release job (record w { store = with_jobs jobs w.store }))

-- failTerminal; the Boolean is whether the transition was made.
unfoldable pub fail_terminal : GenerationJob → String → String → String → Tables → Bool × Tables
fail_terminal job code message expected w =
    released_with job w
      (mark_failed job.id job.tenant_id code message false (expected_of expected) w.store.jobs)

-- failJobOnFinalAttempt
unfoldable pub fail_job_on_final_attempt :
    GenerationJob → GenerationError → String → Bool → String → Tables → Tables
fail_job_on_final_attempt job e message final_attempt expected w = elim final_attempt [
  | false ↦ w
  | true ↦ (fail_terminal job (error_code_for e) message expected w).1
]

-- What process does with the error of the walk: an error that retrying cannot change fails the job at
-- once and is not returned to the queue; any other fails it on the last attempt and is returned.
unfoldable pub after_failed_walk :
    GenerationJob → GenerationError → String → ℕ → String → Tables → Option GenerationError × Tables
after_failed_walk job e message retry_count expected w = elim (terminal_generation_error e) [
  | true ↦ (none, fail_job_on_final_attempt job e message true expected w)
  | false ↦ (
    some e,
    fail_job_on_final_attempt job e message (leb max_attempts (retry_count + 1)) expected w,
  )
]

-- What process does with a job that is already terminal: only the finalization, which is idempotent.
abbrev pub terminal_finalization : JobStatus → Option Target
terminal_finalization completed = some commit
terminal_finalization failed = some release
terminal_finalization cancelled = some release
terminal_finalization s = none
