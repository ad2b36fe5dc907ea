-- ===== src/AdminJobs/Tests.antt =====
-- The theorems about an administrator's cancel and retry at a concrete world, and runs of both.
use dreamchat_image_platform.Common.Int.{pos}
use dreamchat_image_platform.AdminJobs.{cancel_by_status, cancel_live, cancel_locked}
use dreamchat_image_platform.Jobs.Queries.{
  cancel_generation_job, lock_generation_job, lock_generation_job_row, owns, update_job,
}
use dreamchat_image_platform.AdminJobs.Retry.{retry_locked}
use dreamchat_image_platform.Common.{String, true, false, none, some, [], ◌∷◌, ◌≡◌, refl}
use dreamchat_image_platform.Common.Tables.{find_row}
use dreamchat_image_platform.Assets.Supersede.{StoredAsset, ArtifactSlot, asset_ready}
use dreamchat_image_platform.Cost.{Db, Price, Reservation, reserved}
use dreamchat_image_platform.Jobs.{running, failed, Payload, GenerationJob, Store}
use dreamchat_image_platform.Jobs.Persist.{
  insert_final_asset_and_complete_job, insert_preview_asset_and_mark_preview_ready,
}
use dreamchat_image_platform.Jobs.Steps.{here}
use dreamchat_image_platform.AdminJobs.{World, done, refused, invalid_state, cancel_job}
use dreamchat_image_platform.AdminJobs.Retry.{Surroundings, retry_job}
use dreamchat_image_platform.AdminJobs.Cancelled.{cancel_job_twice, cancel_job-silent}
use dreamchat_image_platform.AdminJobs.Answered.{Answers, retry_job-Answers}

abbrev payload : Payload
payload = record {
  provider_id = "bfl";
  model_id = "flux";
  route_id = "r1";
  fallback_routes = [];
  operation_type = "";
  user_id = "";
  units = 0;
  variant_keys = [];
  delivery_mode = "standard";
  preview_capability = "none";
  force_regenerate = false;
  preview_finalization_claimed = false;
}

abbrev running_job : GenerationJob
running_job = record {
  id = "job_1";
  tenant_id = "t1";
  world_id = none;
  status = running;
  requested_by_token_id = some "tok_1";
  asset_pack_id = none;
  input_payload = payload;
  preview_asset_ids = [];
  final_asset_ids = [];
  error_code = none;
  error_message = none;
  retryable = none;
  cost_reservation_id = some "res_1";
  cost_estimate_usd = 400;
  actual_cost_usd = none;
}

abbrev failed_job : GenerationJob
failed_job = record running_job {
  status = failed;
  error_code = some "provider_failure";
  error_message = some "timeout";
  retryable = some false;
}

abbrev image_price : Price
image_price = record {
  provider_id = "bfl";
  model_id = "flux";
  operation_type = "text_to_image";
  unit_type = "image";
  currency = "USD";
  price_per_unit = 40000;
  is_active = true;
  effective_from = 0;
}

abbrev first_reservation : Reservation
first_reservation = record {
  id = "res_1";
  generation_job_id = "job_1";
  tenant_id = "t1";
  estimated_amount = 400;
  reserved_amount = 400;
  actual_amount = none;
  currency = "USD";
  status = reserved;
  failure_reason = none;
}

abbrev tables : Db
tables = record {
  prices = image_price ∷ [];
  budgets = [];
  holds = [];
  reservations = first_reservation ∷ [];
  events = [];
  jobs =
      (record {
        id = "job_1";
        cost_reservation_id = some "res_1";
        identity = none;
        actual_cost = none;
      })
      ∷ [];
  ledger = [];
}

abbrev world_of : GenerationJob → World
world_of j = record {
  store = record { jobs = j ∷ []; assets = []; attempts = []; events = [] };
  packs = [];
  db = tables;
}

abbrev queue_down : Surroundings
queue_down = record {
  window = λ _. 0;
  hold_ids = λ n. "hold";
  reservation_id = "res_2";
  enqueue = λ job reservation. some "connection refused";
}

abbrev queue_up : Surroundings
queue_up = record {
  window = λ _. 0;
  hold_ids = λ n. "hold";
  reservation_id = "res_2";
  enqueue = λ job reservation. none;
}

-- A running job is cancelled, a failed one is not; a running one is not retried.
cancels_running : (cancel_job "t1" "job_1" (world_of running_job)).0 ≡ done
unfolding cancel_job cancel_locked lock_generation_job find_row cancel_by_status cancel_live
    cancel_generation_job update_job
cancels_running = refl

refuses_failed :
    cancel_job "t1" "job_1" (world_of failed_job) ≡ (refused invalid_state, world_of failed_job)
unfolding cancel_job cancel_locked lock_generation_job find_row cancel_by_status
refuses_failed = refl

refuses_running :
    retry_job queue_up "t1" "job_1" (world_of running_job)
    ≡ (refused invalid_state, world_of running_job)
unfolding retry_job retry_locked lock_generation_job_row find_row owns
refuses_running = refl

abbrev late_asset : StoredAsset
late_asset = record {
  id = "asset_1";
  tenant_id = "t1";
  world_id = "w1";
  asset_type = "artifact";
  variant_key = "default";
  style_profile_id = "s1";
  quality_tier = "high";
  prompt_hash = "h1";
  version = pos 0;
  status = asset_ready;
  superseded_by_asset_id = none;
}

abbrev slot : ArtifactSlot
slot = record {
  tenant_id = "t1";
  world_id = "w1";
  style_profile_id = "s1";
  quality_tier = "high";
  prompt_hash = "h1";
}

abbrev cancelled_store : Store
cancelled_store = (cancel_job "t1" "job_1" (world_of running_job)).1.store

cancel_job-silent_example :
    ((insert_final_asset_and_complete_job "job_1" "t1" late_asset true slot none
        (some "res_1")
        cancelled_store).1
      ≡ cancelled_store)
    × ((insert_preview_asset_and_mark_preview_ready "job_1" "t1" late_asset none
          (some "res_1")
          cancelled_store).1
        ≡ cancelled_store)
cancel_job-silent_example =
    cancel_job-silent "t1" "job_1" (world_of running_job) cancelled_store cancels_running here
      late_asset true slot none (some "res_1")

cancel_job_twice_example :
    cancel_job "t1" "job_1" (cancel_job "t1" "job_1" (world_of running_job)).1
    ≡ cancel_job "t1" "job_1" (world_of running_job)
cancel_job_twice_example = cancel_job_twice "t1" "job_1" (world_of running_job)

retry_job-Answers_example :
    Answers queue_up "job_1"
      (world_of failed_job)
      (retry_job queue_up "t1" "job_1" (world_of failed_job))
retry_job-Answers_example = retry_job-Answers queue_up "t1" "job_1" (world_of failed_job)

abbrev prior_id : String
prior_id = "res_1"
