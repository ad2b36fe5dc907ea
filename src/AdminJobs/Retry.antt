-- ===== src/AdminJobs/Retry.antt =====
-- RetryJob of internal/adminjobs/adminjobs.go: the transaction that reserves anew and reopens a failed
-- job, and the enqueueing after it with its cleanup. The queue is a parameter.
use dreamchat_image_platform.Common.{
  ℕ, String, true, false, ◌==◌, if◌then◌else◌, Option, none, some,
}
use dreamchat_image_platform.Common.Tables.{find_row}
use dreamchat_image_platform.Cost.{Db, Period, ok, err, Result}
use dreamchat_image_platform.Cost.Queries.{ReserveInput}
use dreamchat_image_platform.Cost.Reserve.{Outcome, reserve}
use dreamchat_image_platform.Jobs.{GenerationJob, is_failed}
use dreamchat_image_platform.Jobs.Queries.{
  job_key, lock_generation_job_row, mark_failed, retry_reset_generation_job,
}
use dreamchat_image_platform.Jobs.Steps.{with_jobs}
use dreamchat_image_platform.AdminJobs.{
  World, AdminResult, done, refused, not_found, invalid_state, no_rows, no_persisted_route,
  enqueue_failed, cleanup_failed, reservation_failed, reserve_error, fail_pack_of, release_in_tx,
  reserve_input_from_row, reset_cost_columns,
}

-- The start of the budget windows, the ids that are drawn, and the queue, which takes a job and its
-- reservation and may refuse them, with a message.
pub record Surroundings : Type 0 where
  pub window : Period → ℕ
  pub hold_ids : ℕ → String
  pub reservation_id : String
  pub enqueue : String → String → Option String

-- The cleanup transaction after a failed enqueue.
unfoldable pub cleanup_enqueue : String → String → String → String → World → AdminResult × World
cleanup_enqueue tenant job reservation message w =
    elim (mark_failed job tenant "enqueue_failed" message false
      (if reservation == "" then none else some reservation) w.store.jobs) [
        | none ↦ (refused cleanup_failed, w)
        | some jobs ↦ (
          refused enqueue_failed,
          record {
            store = with_jobs jobs w.store;
            packs = fail_pack_of job (find_row job_key job jobs) w.packs;
            db = release_in_tx job w.db;
          },
        )
      ]

-- enqueueRetry
unfoldable pub enqueue_retry : Surroundings → String → String → String → World → AdminResult × World
enqueue_retry s tenant job reservation w = elim (s.enqueue job reservation) [
  | none ↦ (done, w)
  | some message ↦ cleanup_enqueue tenant job reservation message w
]

-- The reset, after a reservation that holds.
unfoldable pub reopen : Surroundings → String → String → World → Outcome × Db → AdminResult × World
reopen s tenant job w (out, db) =
    elim (retry_reset_generation_job job tenant out.id out.estimated_amount w.store.jobs) [
      | none ↦ (refused no_rows, w)
      | some jobs ↦
          enqueue_retry s tenant job out.id
            (record w { store = with_jobs jobs w.store; db = reset_cost_columns job out.id db })
    ]

-- A denied reservation rolls everything back.
unfoldable pub after_reserve :
    Surroundings → String → String → World → Result (Outcome × Db) → AdminResult × World
after_reserve s tenant job w (err e) = (refused (reserve_error e), w)
after_reserve s tenant job w (ok reserved) = elim reserved.0.denied [
  | some reason ↦ (refused (reservation_failed reason), w)
  | none ↦ reopen s tenant job w reserved
]

unfoldable pub retry_failed :
    Surroundings → String → String → World → Option ReserveInput → AdminResult × World
retry_failed s tenant job w none = (refused no_persisted_route, w)
retry_failed s tenant job w (some input) =
    after_reserve s tenant job w
      (reserve s.window s.hold_ids input s.reservation_id (release_in_tx job w.db))

unfoldable pub retry_locked :
    Surroundings → String → String → World → Option GenerationJob → AdminResult × World
retry_locked s tenant job w none = (refused not_found, w)
retry_locked s tenant job w (some row) = elim (is_failed row.status) [
  | false ↦ (refused invalid_state, w)
  | true ↦ retry_failed s tenant job w (reserve_input_from_row job tenant row)
]

-- RetryJob
unfoldable pub retry_job : Surroundings → String → String → World → AdminResult × World
retry_job s tenant job w =
    retry_locked s tenant job w (lock_generation_job_row job tenant none w.store.jobs)
