-- ===== src/JobService/Creating.antt =====
-- Proofs about CreateAndEnqueue: the cap on a token's live jobs, and the replay of a key.
use dreamchat_image_platform.Common.{
  String, false, ◌&&◌, ◌==◌, Option, none, some, if◌then◌else◌, ◌≡◌, refl, inl, inr, Option-cases,
  Bool-cases,
}
use dreamchat_image_platform.Common.Tables.{find_row}
use dreamchat_image_platform.Cost.{Db, ok, err, Result}
use dreamchat_image_platform.Cost.Reserve.{Outcome}
use dreamchat_image_platform.Jobs.{GenerationJob, is_failed}
use dreamchat_image_platform.Jobs.Queries.{job_key, mark_failed}
use dreamchat_image_platform.Jobs.Steps.{with_jobs}
use dreamchat_image_platform.JobService.{
  IdempotencyKey, ServiceTables, CreateParams, CreateService, CreateResult, created, replayed,
  refused, lookup_key, replay_result, replay_job, preflight_reason,
}
use dreamchat_image_platform.JobService.Create.{
  new_jobs, with_key, error_code_of, preflight_message, enqueue_created, commit_created, over_cap,
  create_and_enqueue,
}

-- What a creation has done that was queued.
abbrev pub Queued :
    CreateParams → CreateService → ServiceTables → CreateResult × ServiceTables → Type 0
Queued p s st (created id, st') =
    (out : Outcome) × (id ≡ s.job_id)
    × (over_cap p st ≡ false)
    × (st'.store.jobs ≡ new_jobs p s out st.store.jobs)
    × (st'.keys ≡ with_key p s st.keys)
Queued p s st (replayed id status, st') = st' ≡ st
Queued p s st (refused e, st') = Unit

enqueue_created-Queued :
    (p : CreateParams) (s : CreateService) (st : ServiceTables) (out : Outcome) (db : Db)
    → over_cap p st ≡ false
    → Queued p s st (
        enqueue_created p s out.id (record {
          store = with_jobs (new_jobs p s out st.store.jobs) st.store;
          db = db;
          keys = with_key p s st.keys;
        }))
unfolding enqueue_created
enqueue_created-Queued p s st out db free = elim (Option-cases (s.enqueue s.job_id out.id)) [
  | inl q ↦ rw (enqueue_created, q) (out, refl, free, refl, refl)
  | inr (message, q) ↦
      let reservation : Option String = if out.id == "" then none else some out.id in
      elim (Option-cases (
        mark_failed s.job_id p.tenant_id "enqueue_failed" message false reservation
          (new_jobs p s out st.store.jobs))) [
            | inl f ↦ rw (enqueue_created, q, f) tt
            | inr (jobs, f) ↦ rw (enqueue_created, q, f) tt
          ]
]

commit_created-Queued :
    (p : CreateParams) (s : CreateService) (st : ServiceTables) (r : Result (Outcome × Db))
    → over_cap p st ≡ false
    → Queued p s st (commit_created p s st r)
unfolding commit_created
commit_created-Queued p s st (err e) free = tt
commit_created-Queued p s st (ok (out, db)) free = elim (Option-cases out.denied) [
  | inl d ↦ rw (commit_created, d) (enqueue_created-Queued p s st out _ free)
  | inr (reason, d) ↦
      elim (Option-cases (
        mark_failed s.job_id p.tenant_id (error_code_of reason) (preflight_message reason) false
          (some out.id) (new_jobs p s out st.store.jobs))) [
            | inl f ↦ rw (commit_created, d, f) tt
            | inr (jobs, f) ↦ rw (commit_created, d, f) tt
          ]
]

replay_job-Queued :
    (p : CreateParams) (s : CreateService) (st : ServiceTables) (j : GenerationJob)
    → Queued p s st (replay_job j, st)
unfolding replay_job
replay_job-Queued p s st j = elim (Bool-cases (is_failed j.status)) [
  | inl f ↦ elim (Option-cases (preflight_reason j.error_code)) [
    | inl r ↦ rw (replay_job, f, r) refl
    | inr (reason, r) ↦ rw (replay_job, f, r) tt
  ]
  | inr f ↦ rw (replay_job, f) refl
]

replay_result-Queued :
    (p : CreateParams) (s : CreateService) (st : ServiceTables) (k : IdempotencyKey)
    → Queued p s st (replay_result p k st, st)
unfolding replay_result
replay_result-Queued p s st k =
    elim (Bool-cases (k.endpoint == p.endpoint && k.request_hash == p.request_hash)) [
      | inl same ↦ elim (Option-cases (find_row job_key k.generation_job_id st.store.jobs)) [
        | inl f ↦ rw (replay_result, same, f) tt
        | inr (j, f) ↦ rw (replay_result, same, f) (replay_job-Queued p s st j)
      ]
      | inr differs ↦ rw (replay_result, differs) tt
    ]

pub create_and_enqueue-Queued :
    (p : CreateParams) (s : CreateService) (st : ServiceTables)
    → Queued p s st (create_and_enqueue p s st)
unfolding create_and_enqueue
create_and_enqueue-Queued p s st = elim (Option-cases (lookup_key p s st)) [
  | inr (k, l) ↦ rw (create_and_enqueue, l) (replay_result-Queued p s st k)
  | inl l ↦ elim (Bool-cases (over_cap p st)) [
    | inl full ↦ rw (create_and_enqueue, l, full) tt
    | inr free ↦ rw (create_and_enqueue, l, free) (commit_created-Queued p s st _ free)
  ]
]
