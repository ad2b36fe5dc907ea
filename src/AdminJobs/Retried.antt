-- ===== src/AdminJobs/Retried.antt =====
-- Proofs about RetryJob: a refusal leaves everything, a retry reopens a failed job under its new
-- reservation, and both keep the life of the jobs and the budgets.
use dreamchat_image_platform.Common.{
  String, true, false, Option, none, some, List, ◌≡◌, ◌≢◌, refl, inl, inr, Option-cases, Bool-cases,
  ◌==◌, ◌||◌, if◌then◌else◌,
}
use dreamchat_image_platform.Common.Tables.{find_row}
use dreamchat_image_platform.Cost.{Db, Result, ok, err}
use dreamchat_image_platform.Cost.Conservation.{IsValid}
use dreamchat_image_platform.Cost.Lifecycle.{release}
use dreamchat_image_platform.Cost.Queries.{ReserveInput}
use dreamchat_image_platform.Cost.Reserve.{Outcome, reserve}
use dreamchat_image_platform.Cost.Settling.{finalize-IsValid}
use dreamchat_image_platform.Cost.Reserving.{reserve-IsValid}
use dreamchat_image_platform.Jobs.{
  JobStatus, queued, running, preview_ready, completed, failed, cancelled, GenerationJob, is_failed,
}
use dreamchat_image_platform.Jobs.Queries.{
  job_key, owns, lock_generation_job, lock_generation_job_row, retry_reset_generation_job,
  mark_failed,
}
use dreamchat_image_platform.Jobs.Steps.{with_jobs, admin_retried, marked_failed, Reach, here, next}
use dreamchat_image_platform.AdminJobs.{
  World, AdminResult, AdminError, done, refused, not_found, invalid_state, no_rows, enqueue_failed,
  cleanup_failed, no_persisted_route, reservation_failed, reserve_error, release_in_tx,
  reserve_input_from_row, reset_cost_columns, fail_pack_of,
}
use dreamchat_image_platform.AdminJobs.Retry.{
  Surroundings, cleanup_enqueue, enqueue_retry, reopen, after_reserve, retry_failed, retry_locked,
  retry_job,
}

is_failed-true : (s : JobStatus) → is_failed s ≡ true → s ≡ failed
is_failed-true queued h = cc
is_failed-true running h = cc
is_failed-true preview_ready h = cc
is_failed-true completed h = cc
is_failed-true failed h = refl
is_failed-true cancelled h = cc

-- The status of the row that the lock returns is the one that the lock on the status reads.
lock_generation_job-failed :
    (tenant job : String) (row : GenerationJob) (rows : List GenerationJob)
    → lock_generation_job_row job tenant none rows ≡ some row
    → is_failed row.status ≡ true
    → lock_generation_job job tenant rows ≡ some failed
unfolding lock_generation_job_row lock_generation_job owns
lock_generation_job-failed tenant job row rows h f =
    elim (Option-cases (find_row job_key job rows)) [
      | inl e ↦ cc (rw (e, lock_generation_job_row) at h)
      | inr (j, e) ↦ elim (Bool-cases (j.tenant_id == tenant)) [
        | inl own ↦
            let same : j ≡ row = cc (rw (e, lock_generation_job_row, own) at h) in
            rw (e, lock_generation_job, own, same, is_failed-true row.status f) refl
        | inr other ↦ cc (rw (e, lock_generation_job_row, other) at h)
      ]
    ]

reserve_input_from_row-job :
    (tenant job : String) (row : GenerationJob) (i : ReserveInput)
    → reserve_input_from_row job tenant row ≡ some i
    → i.job_id ≡ job
unfolding reserve_input_from_row
reserve_input_from_row-job tenant job row i h =
    elim (Bool-cases (row.input_payload.provider_id == "" || row.input_payload.model_id == "")) [
      | inl e ↦ cc (rw (e, reserve_input_from_row) at h)
      | inr e ↦ cc (rw (e, reserve_input_from_row) at h)
    ]

-- A split on what RetryJob does, for a property of its answer and the world it leaves: everything that
-- refuses leaves the world, and the rest goes on with a reservation that holds.
module _ (P : AdminResult × World → Type 0) (s : Surroundings) (tenant job : String)
    (w : World) where
  after_reserve-either :
      (r : Result (Outcome × Db))
      → ((e : AdminError) → e ≢ enqueue_failed → e ≢ cleanup_failed → P (refused e, w))
      → ((out : Outcome) (db : Db)
          → r ≡ ok (out, db)
          → out.denied ≡ none
          → P (reopen s tenant job w (out, db)))
      → P (after_reserve s tenant job w r)
  unfolding after_reserve
  after_reserve-either (err e) kept go = kept (reserve_error e) (λ t. cc) (λ t. cc)
  after_reserve-either (ok (out, db)) kept go = elim (Option-cases out.denied) [
    | inl e ↦ rw (e, after_reserve) (go out db refl e)
    | inr (reason, e) ↦ rw (e, after_reserve) (kept (reservation_failed reason) (λ t. cc) (λ t. cc))
  ]

  retry_failed-either :
      (input : Option ReserveInput)
      → ((e : AdminError) → e ≢ enqueue_failed → e ≢ cleanup_failed → P (refused e, w))
      → ((i : ReserveInput) (out : Outcome) (db : Db)
          → input ≡ some i
          → reserve s.window s.hold_ids i s.reservation_id (release_in_tx job w.db) ≡ ok (out, db)
          → out.denied ≡ none
          → P (reopen s tenant job w (out, db)))
      → P (retry_failed s tenant job w input)
  unfolding retry_failed
  retry_failed-either none kept go = kept no_persisted_route (λ t. cc) (λ t. cc)
  retry_failed-either (some i) kept go = after_reserve-either _ kept (λ out db. go i out db refl)

  pub retry_job-either :
      ((e : AdminError) → e ≢ enqueue_failed → e ≢ cleanup_failed → P (refused e, w))
      → ((i : ReserveInput) (out : Outcome) (db : Db)
          → i.job_id ≡ job
          → lock_generation_job job tenant w.store.jobs ≡ some failed
          → reserve s.window s.hold_ids i s.reservation_id (release_in_tx job w.db) ≡ ok (out, db)
          → out.denied ≡ none
          → P (reopen s tenant job w (out, db)))
      → P (retry_job s tenant job w)
  unfolding retry_job retry_locked
  retry_job-either kept go =
      elim (Option-cases (lock_generation_job_row job tenant none w.store.jobs)) [
        | inl e ↦ rw (e, retry_job) (kept not_found (λ t. cc) (λ t. cc))
        | inr (row, e) ↦ elim (Bool-cases (is_failed row.status)) [
          | inl f ↦
              rw (e, retry_job, retry_locked, f)
                (retry_failed-either (reserve_input_from_row job tenant row) kept (λ i out db asked.
                  go i out db (reserve_input_from_row-job tenant job row i asked)
                    (lock_generation_job-failed tenant job row w.store.jobs e f)))
          | inr f ↦ rw (e, retry_job, retry_locked, f) (kept invalid_state (λ t. cc) (λ t. cc))
        ]
      ]

-- The world after the transaction of a retry that is granted.
abbrev pub reopened : String → World → Outcome → Db → List GenerationJob → World
reopened job w out db jobs = record w {
  store = with_jobs jobs w.store;
  db = reset_cost_columns job out.id db;
}

-- The world after the cleanup of one that could not be queued.
abbrev pub cleaned_up : String → World → List GenerationJob → World
cleaned_up job w jobs = record {
  store = with_jobs jobs w.store;
  packs = fail_pack_of job (find_row job_key job jobs) w.packs;
  db = release_in_tx job w.db;
}

-- A split on what follows a reservation that holds.
module _ (P : AdminResult × World → Type 0) (s : Surroundings) (tenant job : String) (w : World)
    (out : Outcome) (db : Db) where
  cleanup_enqueue-either :
      (message : String) (jobs : List GenerationJob)
      → P (refused cleanup_failed, reopened job w out db jobs)
      → ((reservation : Option String) (jobs' : List GenerationJob)
          → mark_failed job tenant "enqueue_failed" message false reservation jobs ≡ some jobs'
          → P (refused enqueue_failed, cleaned_up job (reopened job w out db jobs) jobs'))
      → P (cleanup_enqueue tenant job out.id message (reopened job w out db jobs))
  unfolding cleanup_enqueue
  cleanup_enqueue-either message jobs left failed_again =
      let reservation : Option String = if out.id == "" then none else some out.id in
      elim (Option-cases (mark_failed job tenant "enqueue_failed" message false reservation jobs)) [
        | inl e ↦ rw (e, cleanup_enqueue) left
        | inr (jobs', e) ↦ rw (e, cleanup_enqueue) (failed_again reservation jobs' e)
      ]

  pub reopen-either :
      P (refused no_rows, w)
      → ((jobs : List GenerationJob)
          → retry_reset_generation_job job tenant out.id out.estimated_amount w.store.jobs
            ≡ some jobs
          → P (done, reopened job w out db jobs)
            × P (refused cleanup_failed, reopened job w out db jobs)
            × ((message : String) (reservation : Option String) (jobs' : List GenerationJob)
                → s.enqueue job out.id ≡ some message
                → mark_failed job tenant "enqueue_failed" message false reservation jobs
                  ≡ some jobs'
                → P (refused enqueue_failed, cleaned_up job (reopened job w out db jobs) jobs')))
      → P (reopen s tenant job w (out, db))
  unfolding reopen enqueue_retry
  reopen-either lost go =
      elim (Option-cases
        (retry_reset_generation_job job tenant out.id out.estimated_amount w.store.jobs)) [
          | inl e ↦ rw (e, reopen) lost
          | inr (jobs, e) ↦
              let (queued_up, left, failed_again) = go jobs e in
              elim (Option-cases (s.enqueue job out.id)) [
                | inl q ↦ rw (e, reopen, enqueue_retry, q) queued_up
                | inr (message, q) ↦
                    rw (e, reopen, enqueue_retry, q)
                      (cleanup_enqueue-either message jobs left
                        (λ reservation jobs'. failed_again message reservation jobs' q))
              ]
        ]

-- To the tables of the jobs, RetryJob is a sequence of steps of the jobs' life.
retry_job-Reach :
    (s : Surroundings) (tenant job : String) (w : World)
    → Reach w.store (retry_job s tenant job w).1.store
retry_job-Reach s tenant job w =
    retry_job-either (λ r. Reach w.store r.1.store) s tenant job w (λ e _ _. here)
      (λ i out db about locked held granted.
        reopen-either (λ r. Reach w.store r.1.store) s tenant job w out db here
          (λ jobs e.
            let reset : Reach w.store (with_jobs jobs w.store) =
              next here (admin_retried job tenant out.id out.estimated_amount jobs locked e refl) in
            (
              reset,
              reset,
              λ message reservation jobs' q f. next reset (
                  marked_failed job tenant "enqueue_failed" message false reservation jobs' f refl),
            )))

reset_cost_columns-IsValid :
    (job reservation : String) (db : Db)
    → IsValid db
    → IsValid (reset_cost_columns job reservation db)
unfolding reset_cost_columns
reset_cost_columns-IsValid job reservation db v = record {
  conserved = v.conserved;
  distinct = v.distinct;
}

pub retry_job-IsValid :
    (s : Surroundings) (tenant job : String) (w : World)
    → IsValid w.db
    → IsValid (retry_job s tenant job w).1.db
retry_job-IsValid s tenant job w v =
    retry_job-either (λ r. IsValid r.1.db) s tenant job w (λ e _ _. v)
      (λ i out db about locked held granted.
        let held_valid =
          reserve-IsValid s.window s.hold_ids i s.reservation_id (release_in_tx job w.db) db out
            held (finalize-IsValid release job "" w.db v) in
        let valid = reset_cost_columns-IsValid job out.id db held_valid in
        reopen-either (λ r. IsValid r.1.db) s tenant job w out db v
          (λ jobs e. (
            valid,
            valid,
            λ message reservation jobs' q f.
                finalize-IsValid release job "" (reset_cost_columns job out.id db) valid,
          )))
