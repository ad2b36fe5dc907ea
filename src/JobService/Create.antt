-- ===== src/JobService/Create.antt =====
-- The transaction of CreateAndEnqueue, and the enqueueing after it with its cleanup.
use dreamchat_image_platform.Common.{
  String, Bool, true, false, ◌&&◌, ◌==◌, ltb, leb, ◌+◌, none, some, List, ◌∷◌, if◌then◌else◌,
}
use dreamchat_image_platform.Common.Tables.{update_row}
use dreamchat_image_platform.Cost.{
  Db, ok, err, Result, FailureReason, no_price_entry, budget_exceeded,
}
use dreamchat_image_platform.Cost.Queries.{ReserveInput}
use dreamchat_image_platform.Cost.Lifecycle.{finalize, release}
use dreamchat_image_platform.Cost.Reserve.{Outcome, reserve}
use dreamchat_image_platform.Jobs.{GenerationJob}
use dreamchat_image_platform.Jobs.Queries.{mark_failed, set_generation_job_cost}
use dreamchat_image_platform.Jobs.Steps.{insert_generation_job, with_jobs}
use dreamchat_image_platform.JobService.{
  IdempotencyKey, ServiceTables, CreateParams, CreateService, CreateResult, created, refused,
  concurrent_jobs_exceeded, no_rows, enqueue_failed, cleanup_failed, preflight_denied,
  reserve_error, count_live_jobs, insert_idempotency_key, lookup_key, replay_result,
}

abbrev pub error_code_of : FailureReason → String
error_code_of no_price_entry = "no_price_entry"
error_code_of budget_exceeded = "budget_exceeded"

abbrev pub preflight_message : FailureReason → String
preflight_message no_price_entry = "no active price entry for the selected provider/model/operation"
preflight_message budget_exceeded = "cost budget exceeded for this request"

-- The columns of cost control of the new row, and what SetGenerationJobCost writes to them.
abbrev pub insert_cost_columns : CreateParams → String → Db → Db
insert_cost_columns p id db = record db {
  jobs =
      (record {
        id = id;
        cost_reservation_id = none;
        identity = p.visual_identity_id;
        actual_cost = none;
      })
      ∷ db.jobs;
}

abbrev pub link_cost_columns : String → String → Db → Db
link_cost_columns id reservation db = record db {
  jobs =
      update_row (λ j. j.id) id (λ j. record j { cost_reservation_id = some reservation }) db.jobs;
}

-- The new row of the job under its reservation.
abbrev pub new_jobs :
    CreateParams → CreateService → Outcome → List GenerationJob → List GenerationJob
new_jobs p s out jobs = set_generation_job_cost s.job_id out.id out.estimated_amount (
    insert_generation_job s.job_id p.tenant_id (some p.world_id) (some p.requested_by_token_id)
      p.input_payload
    ∷ jobs)

abbrev pub new_key : CreateParams → CreateService → IdempotencyKey
new_key p s = record {
  token_id = p.requested_by_token_id;
  key = p.idempotency_key;
  endpoint = p.endpoint;
  request_hash = p.request_hash;
  generation_job_id = s.job_id;
  expires_at = s.now + s.ttl;
}

abbrev pub with_key : CreateParams → CreateService → List IdempotencyKey → List IdempotencyKey
with_key p s keys =
    if p.idempotency_key == "" then keys else insert_idempotency_key (new_key p s) keys

-- enqueue, with its cleanup
unfoldable pub enqueue_created :
    CreateParams → CreateService → String → ServiceTables → CreateResult × ServiceTables
enqueue_created p s reservation st = elim (s.enqueue s.job_id reservation) [
  | none ↦ (created s.job_id, st)
  | some message ↦
      elim (mark_failed s.job_id p.tenant_id "enqueue_failed" message false
        (if reservation == "" then none else some reservation) st.store.jobs) [
          | none ↦ (refused cleanup_failed, st)
          | some jobs ↦ (
            refused enqueue_failed,
            record st { store = with_jobs jobs st.store; db = finalize release s.job_id "" st.db },
          )
        ]
]

-- After the reservation: a denied pre-flight commits the failed job and is never enqueued.
unfoldable pub commit_created :
    CreateParams
    → CreateService
    → ServiceTables
    → Result (Outcome × Db)
    → CreateResult × ServiceTables
commit_created p s st (err e) = (refused (reserve_error e), st)
commit_created p s st (ok (out, db)) = elim out.denied [
  | none ↦ enqueue_created p s out.id (record {
    store = with_jobs (new_jobs p s out st.store.jobs) st.store;
    db = link_cost_columns s.job_id out.id db;
    keys = with_key p s st.keys;
  })
  | some reason ↦
      elim (mark_failed s.job_id p.tenant_id (error_code_of reason) (preflight_message reason) false
        (some out.id) (new_jobs p s out st.store.jobs)) [
          | none ↦ (refused no_rows, st)
          | some jobs ↦ (
            refused (preflight_denied reason),
            record {
              store = with_jobs jobs st.store;
              db = link_cost_columns s.job_id out.id db;
              keys = with_key p s st.keys;
            },
          )
        ]
]

-- What is asked of cost control: the ids of the job and of who asks for it are the job's.
abbrev pub asked_for : CreateParams → CreateService → ReserveInput
asked_for p s = record p.reserve_input {
  job_id = s.job_id;
  tenant_id = p.tenant_id;
  token_id = p.requested_by_token_id;
  world_id = p.world_id;
}

abbrev pub over_cap : CreateParams → ServiceTables → Bool
over_cap p st =
    ltb 0 p.max_concurrent_jobs
    && leb p.max_concurrent_jobs (count_live_jobs p.requested_by_token_id st.store.jobs)

-- CreateAndEnqueue; a replay wins over the cap.
unfoldable pub create_and_enqueue :
    CreateParams → CreateService → ServiceTables → CreateResult × ServiceTables
create_and_enqueue p s st = elim (lookup_key p s st) [
  | some existing ↦ (replay_result p existing st, st)
  | none ↦ elim (over_cap p st) [
    | true ↦ (refused concurrent_jobs_exceeded, st)
    | false ↦ commit_created p s st (
        reserve s.window s.hold_ids (asked_for p s) s.reservation_id
          (insert_cost_columns p s.job_id st.db))
  ]
]
