-- ===== src/AdminJobs/Answered.antt =====
-- What RetryJob of internal/adminjobs/adminjobs.go answers with: the row of the job that it leaves, and the
-- reservations of the job.
use dreamchat_image_platform.Common.{
  ℕ, String, false, Option, none, some, List, [], ◌≡◌, ◌≢◌, refl, inl, inr, ◌⊎◌, sym, ap, eq_refl,
  subst,
}
use dreamchat_image_platform.Common.Tables.{find_row, update_row, find_row-update_row}
use dreamchat_image_platform.Cost.{Db, Reservation, ok}
use dreamchat_image_platform.Cost.Queries.{ReserveInput, open_reservation}
use dreamchat_image_platform.Cost.Reserve.{Outcome, reserve}
use dreamchat_image_platform.Cost.Reserving.{open_row, reserve-Opened, stored_open}
use dreamchat_image_platform.Jobs.{queued, failed, GenerationJob}
use dreamchat_image_platform.Jobs.Queries.{
  job_key, lock_generation_job, retry_reset_generation_job, mark_failed, set_failed,
}
use dreamchat_image_platform.Jobs.Coherence.{update_job-some, lock_generation_job-some}
use dreamchat_image_platform.Jobs.Steps.{with_jobs}
use dreamchat_image_platform.AdminJobs.{
  World, AdminResult, done, refused, enqueue_failed, cleanup_failed, release_in_tx,
  reset_cost_columns,
}
use dreamchat_image_platform.AdminJobs.Retry.{Surroundings, retry_job}
use dreamchat_image_platform.AdminJobs.Retried.{
  retry_job-either, reopen-either, reopened, cleaned_up,
}

-- The row of a job that is opened again under a reservation with an estimate: queued, its final phase
-- unclaimed, without error, final assets or actual cost.
abbrev pub reopened_row : String → ℕ → GenerationJob → GenerationJob
reopened_row reservation estimate j = record j {
  status = queued;
  input_payload = record j.input_payload { preview_finalization_claimed = false };
  error_code = none;
  error_message = none;
  retryable = none;
  final_asset_ids = [];
  cost_reservation_id = some reservation;
  cost_estimate_usd = estimate;
  actual_cost_usd = none;
}

-- A failed job has been opened again under the reservation that was drawn, with its amount as the estimate,
-- and nothing else of the tables of the jobs and packs is changed.
abbrev pub Reopens : Surroundings → String → World → World → Type 0
Reopens s job w w' =
    (j : GenerationJob) × (estimate : ℕ) × (find_row job_key job w.store.jobs ≡ some j)
    × (j.status ≡ failed)
    × (find_row job_key job w'.store.jobs ≡ some (reopened_row s.reservation_id estimate j))
    × (w'.store
        ≡ with_jobs (update_row job_key job (reopened_row s.reservation_id estimate) w.store.jobs)
            w.store)
    × (w'.packs ≡ w.packs)
    × (r : Reservation) × (open_reservation job s.reservation_id w'.db.reservations ≡ some r)
    × (r.estimated_amount ≡ estimate)

-- A failed job was opened again, could not be queued, and has failed with the queue's message.
abbrev pub FailsAgain : Surroundings → String → World → World → Type 0
FailsAgain s job w w' =
    (j : GenerationJob) × (estimate : ℕ) × (message : String) × (find_row job_key job w.store.jobs
      ≡ some j)
    × (j.status ≡ failed)
    × (s.enqueue job s.reservation_id ≡ some message)
    × (find_row job_key job w'.store.jobs
        ≡ some (record (reopened_row s.reservation_id estimate j) {
          status = failed;
          error_code = some "enqueue_failed";
          error_message = some message;
          retryable = some false;
        }))

abbrev pub Answers : Surroundings → String → World → AdminResult × World → Type 0
Answers s job w (done, w') = Reopens s job w w'
Answers s job w (refused e, w') =
    (w' ≡ w)
    ⊎ (((e ≡ cleanup_failed) × Reopens s job w w') ⊎ ((e ≡ enqueue_failed) × FailsAgain s job w w'))

module _ (s : Surroundings) (tenant job : String) (w : World) (i : ReserveInput) (out : Outcome)
    (db : Db) (jobs : List GenerationJob) (about : i.job_id ≡ job)
    (locked : lock_generation_job job tenant w.store.jobs ≡ some failed)
    (held : reserve s.window s.hold_ids i s.reservation_id (release_in_tx job w.db) ≡ ok (out, db))
    (granted : out.denied ≡ none)
    (reset : retry_reset_generation_job job tenant out.id out.estimated_amount w.store.jobs
      ≡ some jobs) where
  new_open :
      (r : Reservation) × (open_reservation job s.reservation_id db.reservations ≡ some r)
      × (r.estimated_amount ≡ out.estimated_amount)
      × (out.id ≡ s.reservation_id)
  new_open =
      let ((est, rows, fresh, drawn, amount), _) =
        reserve-Opened s.window s.hold_ids i s.reservation_id (release_in_tx job w.db) db out held
          granted in
      (
        open_row i s.reservation_id est,
        rw rows (
            stored_open job s.reservation_id (open_row i s.reservation_id est)
              (release_in_tx job w.db).reservations refl about refl),
        sym amount,
        drawn,
      )

  reset_rows :
      (j : GenerationJob) × (find_row job_key job w.store.jobs ≡ some j)
      × (j.status ≡ failed)
      × (jobs
          ≡ update_row job_key job
              (reopened_row s.reservation_id out.estimated_amount)
              w.store.jobs)
      × (find_row job_key job jobs ≡ some (reopened_row s.reservation_id out.estimated_amount j))
  unfolding retry_reset_generation_job
  reset_rows =
      let (j, found, was) = lock_generation_job-some job tenant failed w.store.jobs locked in
      let (_, _, _, _, changed) = update_job-some _ _ job tenant w.store.jobs jobs reset in
      let (_, _, _, drawn) = new_open in
      let rows : jobs
          ≡ update_row job_key job (reopened_row s.reservation_id out.estimated_amount)
              w.store.jobs =
        subst
          (λ id. jobs ≡ update_row job_key job (reopened_row id out.estimated_amount) w.store.jobs)
          drawn changed in
      (
        j,
        found,
        was,
        rows,
        rw
            (
              rows,
              find_row-update_row job_key job job
                  (reopened_row s.reservation_id out.estimated_amount) w.store.jobs (λ x. refl),
              eq_refl job,
              found,
            )
            refl,
      )

  reopened-Reopens : Reopens s job w (reopened job w out db jobs)
  unfolding reset_cost_columns
  reopened-Reopens =
      let (j, found, was, rows, after) = reset_rows in
      let (r, open_now, amount, _) = new_open in
      (
        j,
        out.estimated_amount,
        found,
        was,
        after,
        ap (λ l. with_jobs l w.store) rows,
        refl,
        r,
        open_now,
        amount,
      )

  cleaned_up-FailsAgain :
      (message : String) (reservation : Option String) (jobs' : List GenerationJob)
      → s.enqueue job out.id ≡ some message
      → mark_failed job tenant "enqueue_failed" message false reservation jobs ≡ some jobs'
      → FailsAgain s job w (cleaned_up job (reopened job w out db jobs) jobs')
  unfolding mark_failed
  cleaned_up-FailsAgain message reservation jobs' refuses marked =
      let (j, found, was, _, after) = reset_rows in
      let (_, _, _, drawn) = new_open in
      let (_, _, _, _, changed) = update_job-some _ _ job tenant jobs jobs' marked in
      (
        j,
        out.estimated_amount,
        message,
        found,
        was,
        subst (λ id. s.enqueue job id ≡ some message) drawn refuses,
        rw
            (
              changed,
              find_row-update_row job_key job job (set_failed "enqueue_failed" message false) jobs
                  (λ x. refl),
              eq_refl job,
              after,
            )
            refl,
      )

-- RetryJob answers in one of four ways. It has opened a job that had failed: the job is queued under the
-- reservation that was drawn, which is open, with its amount as the estimate, without error, final asset
-- or actual cost, and no other row of the jobs, assets, attempts, events or packs is changed. Or it
-- refuses and every table is as it was, the prior reservation included. Or the queue has refused the
-- task, and the job has failed again, with the queue's message and not retryable; or the cleanup after
-- that has failed, and the job stays opened.
pub retry_job-Answers :
    (s : Surroundings) (tenant job : String) (w : World)
    → Answers s job w (retry_job s tenant job w)
retry_job-Answers s tenant job w =
    retry_job-either (Answers s job w) s tenant job w (λ e _ _. inl refl)
      (λ i out db about locked held granted.
        reopen-either (Answers s job w) s tenant job w out db (inl refl) (λ jobs e.
          let opened = reopened-Reopens s tenant job w i out db jobs about locked held granted e in
          (
            opened,
            inr (inl (refl, opened)),
            λ message reservation jobs' q f. inr (
                inr (
                  refl,
                  cleaned_up-FailsAgain s tenant job w i out db jobs about locked held granted e
                      message reservation jobs' q f,
                )),
          )))

-- The reservations of the job after a retry: the prior one is closed, the new one is open exactly if the
-- job has been queued.
abbrev pub Accounted : Surroundings → String → String → AdminResult × World → Type 0
Accounted s job prior (done, w') =
    (open_reservation job prior w'.db.reservations ≡ none)
    × (open_reservation job s.reservation_id w'.db.reservations ≢ none)
Accounted s job prior (refused e, w') =
    e ≡ enqueue_failed
    → (open_reservation job prior w'.db.reservations ≡ none)
      × (open_reservation job s.reservation_id w'.db.reservations ≡ none)
