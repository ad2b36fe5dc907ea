-- ===== src/JobService/Creations.antt =====
-- What CreateAndEnqueue promises: the cap on a token's live jobs, and the replay of a created job.
use dreamchat_image_platform.Common.{
  String, true, false, ◌==◌, ltb, ◌+◌, ◌≤◌, suc, some, List, keep_if, ◌≡◌, refl, arith, eq_refl,
  subst, sym,
}
use dreamchat_image_platform.Common.Tables.{find_row, update_row}
use dreamchat_image_platform.Cost.Reserve.{Outcome}
use dreamchat_image_platform.Jobs.{queued, GenerationJob}
use dreamchat_image_platform.Jobs.Queries.{set_generation_job_cost}
use dreamchat_image_platform.Jobs.Steps.{insert_generation_job}
use dreamchat_image_platform.JobService.{
  IdempotencyKey, ServiceTables, CreateParams, CreateService, created, replayed, count_live_jobs,
  get_idempotency_key, insert_idempotency_key, lookup_key, replay_result, lookup_replay, replay_job,
}
use dreamchat_image_platform.JobService.Create.{new_jobs, new_key, with_key, create_and_enqueue}
use dreamchat_image_platform.JobService.Creating.{Queued, create_and_enqueue-Queued}

count_live_jobs-new_jobs :
    (token : String) (p : CreateParams) (s : CreateService) (out : Outcome)
    (jobs : List GenerationJob)
    → count_live_jobs token (new_jobs p s out jobs) ≤ suc (count_live_jobs token jobs)
unfolding count_live_jobs keep_if set_generation_job_cost update_row insert_generation_job
count_live_jobs-new_jobs token p s out jobs = ground (arith, eq_refl s.job_id)

Queued-capped :
    (p : CreateParams) (s : CreateService) (st st' : ServiceTables) (id : String)
    → ltb 0 p.max_concurrent_jobs ≡ true
    → Queued p s st (created id, st')
    → count_live_jobs p.requested_by_token_id st'.store.jobs ≤ p.max_concurrent_jobs
Queued-capped p s st st' id capped (out, _, free, jobs, _) =
    subst (λ l. count_live_jobs p.requested_by_token_id l ≤ p.max_concurrent_jobs) (sym jobs)
      (ground (
        arith,
        capped,
        free,
        count_live_jobs-new_jobs p.requested_by_token_id p s out st.store.jobs,
      ))

-- After a creation under a cap of live jobs, the token that asked for the job has at most as many live
-- jobs as the cap allows.
pub create_and_enqueue-capped :
    (p : CreateParams) (s : CreateService) (st st' : ServiceTables) (id : String)
    → ltb 0 p.max_concurrent_jobs ≡ true
    → create_and_enqueue p s st ≡ (created id, st')
    → count_live_jobs p.requested_by_token_id st'.store.jobs ≤ p.max_concurrent_jobs
create_and_enqueue-capped p s st st' id capped h =
    Queued-capped p s st st' id capped (subst (Queued p s st) h (create_and_enqueue-Queued p s st))

get_idempotency_key-new_key :
    (p : CreateParams) (s t : CreateService) (keys : List IdempotencyKey)
    → ltb t.now (s.now + s.ttl) ≡ true
    → get_idempotency_key t.now p.requested_by_token_id p.idempotency_key
        (insert_idempotency_key (new_key p s) keys)
      ≡ some (new_key p s)
unfolding insert_idempotency_key get_idempotency_key
get_idempotency_key-new_key p s t keys soon =
    ground (arith, soon, eq_refl p.requested_by_token_id, eq_refl p.idempotency_key)

lookup_key-with_key :
    (p : CreateParams) (s t : CreateService) (st st' : ServiceTables)
    → (p.idempotency_key == "") ≡ false
    → ltb t.now (s.now + s.ttl) ≡ true
    → st'.keys ≡ with_key p s st.keys
    → lookup_key p t st' ≡ some (new_key p s)
lookup_key-with_key p s t st st' named soon keys =
    rw (named, keys) (rw (with_key, named) (get_idempotency_key-new_key p s t st.keys soon))

replay_result-new_jobs :
    (p : CreateParams) (s : CreateService) (st st' : ServiceTables) (out : Outcome)
    → st'.store.jobs ≡ new_jobs p s out st.store.jobs
    → replay_result p (new_key p s) st' ≡ replayed s.job_id queued
unfolding replay_result replay_job set_generation_job_cost update_row insert_generation_job find_row
replay_result-new_jobs p s st st' out jobs =
    rw (jobs, eq_refl p.endpoint, eq_refl p.request_hash, eq_refl s.job_id)
      (rw (eq_refl s.job_id) refl)

-- A create that is sent again under its key, before the key expires and before anything else has
-- happened, answers with the job that the first one created and changes no table, whatever the second
-- one's surroundings are; and the check before it, LookupReplay, answers the same.
pub create_and_enqueue-replayed :
    (p : CreateParams) (s t : CreateService) (st st' : ServiceTables) (id : String)
    → (p.idempotency_key == "") ≡ false
    → ltb t.now (s.now + s.ttl) ≡ true
    → create_and_enqueue p s st ≡ (created id, st')
    → (create_and_enqueue p t st' ≡ (replayed id queued, st'))
      × (lookup_replay p t st' ≡ some (replayed id queued))
unfolding create_and_enqueue lookup_replay
create_and_enqueue-replayed p s t st st' id named soon h =
    let (out, same, _, jobs, keys) = subst (Queued p s st) h (create_and_enqueue-Queued p s st) in
    let found = lookup_key-with_key p s t st st' named soon keys in
    let replay = replay_result-new_jobs p s st st' out jobs in
    let here : get_idempotency_key t.now p.requested_by_token_id p.idempotency_key st'.keys
        ≡ some (new_key p s) =
      rw (sym found, named) refl in
    (rw (create_and_enqueue, found, replay, same) refl, rw (lookup_replay, here, replay, same) refl)
