-- ===== src/JobService/Tests.antt =====
-- The theorems about job creation at a concrete request, and runs of it.
use dreamchat_image_platform.Common.{true, false, none, [], ◌∷◌, ◌≡◌, ◌≤◌, refl, keep_if}
use dreamchat_image_platform.Common.Sort.{scan_best}
use dreamchat_image_platform.Common.Tables.{find_row, update_row}
use dreamchat_image_platform.Cost.{Price}
use dreamchat_image_platform.Cost.Queries.{
  ReserveInput, estimate_operation_cost, insert_cost_reservation, list_budgets_for_reservation,
}
use dreamchat_image_platform.Cost.Reserve.{hold_budgets, reserve, reserve_budgets, select_budgets}
use dreamchat_image_platform.Jobs.Queries.{set_generation_job_cost}
use dreamchat_image_platform.Jobs.Steps.{insert_generation_job}
use dreamchat_image_platform.Jobs.{queued, Payload}
use dreamchat_image_platform.JobService.{
  ServiceTables, CreateParams, CreateService, created, replayed, refused, concurrent_jobs_exceeded,
  count_live_jobs, get_idempotency_key, insert_idempotency_key,
}
use dreamchat_image_platform.JobService.{lookup_replay}
use dreamchat_image_platform.Common.{some}
use dreamchat_image_platform.JobService.Create.{create_and_enqueue, commit_created, enqueue_created}
use dreamchat_image_platform.JobService.Creations.{
  create_and_enqueue-capped, create_and_enqueue-replayed,
}

abbrev payload : Payload
payload = record {
  provider_id = "bfl";
  model_id = "flux";
  route_id = "r1";
  fallback_routes = [];
  operation_type = "text_to_image";
  user_id = "";
  units = 1;
  variant_keys = [];
  delivery_mode = "standard";
  preview_capability = "none";
  force_regenerate = false;
  preview_finalization_claimed = false;
}

abbrev cost_context : ReserveInput
cost_context = record {
  job_id = "";
  tenant_id = "";
  token_id = "";
  world_id = "";
  user_id = "";
  provider_id = "bfl";
  model_id = "flux";
  operation_type = "text_to_image";
  units = 1;
}

abbrev request : CreateParams
request = record {
  tenant_id = "t1";
  requested_by_token_id = "tok_1";
  world_id = "w1";
  visual_identity_id = none;
  input_payload = payload;
  reserve_input = cost_context;
  max_concurrent_jobs = 1;
  idempotency_key = "key_1";
  endpoint = "/v1/artifacts";
  request_hash = "h1";
}

abbrev image_price : Price
image_price = record {
  provider_id = "bfl";
  model_id = "flux";
  operation_type = "text_to_image";
  unit_type = "image";
  currency = "USD";
  price_per_unit = 40000;
  is_active = true;
  effective_from = 0;
}

abbrev empty_tables : ServiceTables
empty_tables = record {
  store = record { jobs = []; assets = []; attempts = []; events = [] };
  db = record {
    prices = image_price ∷ [];
    budgets = [];
    holds = [];
    reservations = [];
    events = [];
    jobs = [];
    ledger = [];
  };
  keys = [];
}

abbrev first : CreateService
first = record {
  now = 10;
  ttl = 100;
  job_id = "job_1";
  reservation_id = "res_1";
  window = λ _. 0;
  hold_ids = λ n. "hold";
  enqueue = λ job reservation. none;
}

abbrev second : CreateService
second = record first { now = 20; job_id = "job_2"; reservation_id = "res_2" }

abbrev after : ServiceTables
after = (create_and_enqueue request first empty_tables).1

creates_job_1 : create_and_enqueue request first empty_tables ≡ (created "job_1", after)
unfolding create_and_enqueue get_idempotency_key count_live_jobs keep_if reserve
    estimate_operation_cost scan_best insert_cost_reservation find_row reserve_budgets hold_budgets
    select_budgets list_budgets_for_reservation commit_created enqueue_created
creates_job_1 = refl

-- At its cap, the token is refused under another key.
caps_the_token :
    (create_and_enqueue (record request { idempotency_key = "key_2" }) second after).0
    ≡ refused concurrent_jobs_exceeded
unfolding create_and_enqueue get_idempotency_key count_live_jobs keep_if reserve
    estimate_operation_cost scan_best insert_cost_reservation find_row reserve_budgets hold_budgets
    select_budgets list_budgets_for_reservation commit_created enqueue_created
    insert_idempotency_key set_generation_job_cost update_row insert_generation_job
caps_the_token = refl

create_and_enqueue-capped_example : count_live_jobs "tok_1" after.store.jobs ≤ 1
create_and_enqueue-capped_example =
    create_and_enqueue-capped request first empty_tables after "job_1" refl creates_job_1

create_and_enqueue-replayed_example :
    (create_and_enqueue request second after ≡ (replayed "job_1" queued, after))
    × (lookup_replay request second after ≡ some (replayed "job_1" queued))
create_and_enqueue-replayed_example =
    create_and_enqueue-replayed request first second empty_tables after "job_1" refl refl
      creates_job_1
