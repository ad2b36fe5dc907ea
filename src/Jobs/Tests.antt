-- ===== src/Jobs/Tests.antt =====
-- The theorems about the jobs at concrete tables, and runs of the definitions.
use dreamchat_image_platform.Common.Int.{pos}
use dreamchat_image_platform.Cost.{Db}
use dreamchat_image_platform.Cost.Lifecycle.{release, finalize}
use dreamchat_image_platform.Jobs.Worker.{
  Tables, claim_queued_job, claim_final_phase, after_failed_walk,
}
use dreamchat_image_platform.Jobs.Claims.{
  first_claims_lem, Ends, after_failed_walk-live, after_failed_walk-late,
}
use dreamchat_image_platform.Jobs.Queries.{
  count_provider_attempts, lock_generation_job_row, mark_provider_attempt_failed, update_job,
}
use dreamchat_image_platform.Common.Tables.{update_row}
use dreamchat_image_platform.Jobs.Persist.{final_locked, persist_success, write_output}
use dreamchat_image_platform.Jobs.Fallback.{
  billable_units, fallback_routes_from_payload, insert_provider_attempt, is_preview_first,
  record_attempt_failure,
}
use dreamchat_image_platform.Jobs.Fallback.{fallback_routes_from_payload}
use dreamchat_image_platform.Common.{keep_if}
use dreamchat_image_platform.Common.{keep_if}
use dreamchat_image_platform.Common.{
  true, false, ◌==◌, none, some, [], ◌∷◌, ◌≡◌, refl, All, inl, inr, arith,
}
use dreamchat_image_platform.Common.Tables.{find_row}
use dreamchat_image_platform.Assets.Supersede.{StoredAsset, ArtifactSlot, asset_ready}
use dreamchat_image_platform.Jobs.{queued, running, ResolvedRoute, Payload, GenerationJob, Store}
use dreamchat_image_platform.Jobs.Queries.{
  job_key, owns, lock_generation_job, mark_running, cancel_generation_job, set_running,
  set_cancelled,
}
use dreamchat_image_platform.Jobs.Persist.{ok, persisted, insert_final_asset_and_complete_job}
use dreamchat_image_platform.Jobs.Steps.{claimed, admin_cancelled, Reach, here, next}
use dreamchat_image_platform.Jobs.Coherence.{IsCoherent}
use dreamchat_image_platform.Jobs.Settled.{Reach-IsCoherent, Reach-silent}
use dreamchat_image_platform.Jobs.{failed}
use dreamchat_image_platform.Jobs.Persisted.{with_asset}
use dreamchat_image_platform.Jobs.Persisted.{Outcome, Completes}
use dreamchat_image_platform.Jobs.Persist.{
  PersistResult, already_terminal, insert_preview_asset_and_mark_preview_ready,
}
use dreamchat_image_platform.Jobs.Queries.{claim_preview_finalization, mark_completed, mark_failed}
use dreamchat_image_platform.Jobs.Walking.{Explains, chain}
use dreamchat_image_platform.Jobs.Stopping.{StopsAtRejection, Works, NeverRejects, is_generated}
use dreamchat_image_platform.Common.{◌≤◌, Occurs, if◌then◌else◌}
use dreamchat_image_platform.Jobs.Persisted.{insert_final-Outcome}
use dreamchat_image_platform.Jobs.Stale.{stale_reservation_lem}
use dreamchat_image_platform.Jobs.Fallback.{
  made, refused, content_policy_rejected, provider_failed, Outside, gen_failed, generated,
  walk_routes, generate_with_fallback, billable_call_cap, run_attempts,
}
use dreamchat_image_platform.Jobs.Billing.{billed, run_attempts-billed}
use dreamchat_image_platform.Jobs.Walking.{generate_with_fallback-Explains}
use dreamchat_image_platform.Jobs.Stopping.{
  walk_routes-StopsAtRejection, generate_with_fallback-succeeds,
}

abbrev primary_route : ResolvedRoute
primary_route = record { provider_id = "bfl"; model_id = "flux"; route_id = "r1" }

abbrev fallback_route : ResolvedRoute
fallback_route = record { provider_id = "fal"; model_id = "kontext"; route_id = "r2" }

abbrev one_image : Payload
one_image = record {
  provider_id = "bfl";
  model_id = "flux";
  route_id = "r1";
  fallback_routes = fallback_route ∷ [];
  operation_type = "text_to_image";
  user_id = "u1";
  units = 1;
  variant_keys = [];
  delivery_mode = "standard";
  preview_capability = "none";
  force_regenerate = false;
  preview_finalization_claimed = false;
}

abbrev queued_job : GenerationJob
queued_job = record {
  id = "job_1";
  tenant_id = "t1";
  world_id = some "w1";
  status = queued;
  requested_by_token_id = some "tok_1";
  asset_pack_id = none;
  input_payload = one_image;
  preview_asset_ids = [];
  final_asset_ids = [];
  error_code = none;
  error_message = none;
  retryable = none;
  cost_reservation_id = some "res_1";
  cost_estimate_usd = 400;
  actual_cost_usd = none;
}

abbrev store_of : GenerationJob → Store
store_of j = record { jobs = j ∷ []; assets = []; attempts = []; events = [] }

abbrev new_asset : StoredAsset
new_asset = record {
  id = "asset_1";
  tenant_id = "t1";
  world_id = "w1";
  asset_type = "artifact";
  variant_key = "default";
  style_profile_id = "s1";
  quality_tier = "high";
  prompt_hash = "h1";
  version = pos 0;
  status = asset_ready;
  superseded_by_asset_id = none;
}

abbrev its_slot : ArtifactSlot
its_slot = record {
  tenant_id = "t1";
  world_id = "w1";
  style_profile_id = "s1";
  quality_tier = "high";
  prompt_hash = "h1";
}

abbrev cancelled_job : GenerationJob
cancelled_job = set_cancelled "stop" (set_running queued_job)

claims :
    mark_running "job_1" "t1" (some "res_1") (queued_job ∷ []) ≡ some (set_running queued_job ∷ [])
unfolding mark_running update_job find_row owns update_row
claims = refl

cancels :
    cancel_generation_job "job_1" "t1" "stop" (set_running queued_job ∷ [])
    ≡ some (cancelled_job ∷ [])
unfolding cancel_generation_job update_job find_row update_row
cancels = refl

locks : lock_generation_job "job_1" "t1" (set_running queued_job ∷ []) ≡ some running
unfolding lock_generation_job find_row
locks = refl

-- A worker claims the job, and an administrator cancels it while the provider works.
abbrev claim_then_cancel : Reach (store_of queued_job) (store_of cancelled_job)
claim_then_cancel =
    next (next here (claimed "job_1" "t1" (some "res_1") (set_running queued_job ∷ []) claims refl))
      (admin_cancelled "job_1" "t1" "stop" running (cancelled_job ∷ []) locks refl cancels refl)

queued_job-IsCoherent : All IsCoherent (queued_job ∷ [])
queued_job-IsCoherent = ((λ _. refl, λ t. cc, refl), tt)

Reach-IsCoherent_example : All IsCoherent (cancelled_job ∷ [])
Reach-IsCoherent_example =
    Reach-IsCoherent (store_of queued_job) (store_of cancelled_job) claim_then_cancel
      queued_job-IsCoherent

-- The provider returns after the cancel.
abbrev late_output : PersistResult × Store
late_output =
    insert_final_asset_and_complete_job "job_1" "t1" new_asset false its_slot none (some "res_1")
      (store_of cancelled_job)

finds_cancelled : find_row job_key "job_1" (cancelled_job ∷ []) ≡ some cancelled_job
unfolding find_row
finds_cancelled = refl

Reach-silent_example :
    (late_output.1 ≡ store_of cancelled_job)
    × ((insert_preview_asset_and_mark_preview_ready "job_1" "t1" new_asset none
          (some "res_1")
          (store_of cancelled_job)).1
        ≡ store_of cancelled_job)
Reach-silent_example =
    Reach-silent "job_1" cancelled_job (store_of cancelled_job) (store_of cancelled_job) here
      finds_cancelled refl "t1" new_asset false its_slot none (some "res_1")

abbrev running_store : Store
running_store = store_of (set_running queued_job)

abbrev first_output : PersistResult × Store
first_output =
    insert_final_asset_and_complete_job "job_1" "t1" new_asset false its_slot none (some "res_1")
      running_store

-- The output of a running job is persisted.
persists : first_output.0 ≡ ok persisted
unfolding insert_final_asset_and_complete_job final_locked lock_generation_job_row find_row owns
    write_output mark_completed update_job persist_success
persists = refl

insert_final-Outcome_example :
    Outcome
      (Completes "job_1" "t1" new_asset
        (with_asset false new_asset its_slot [])
        none
        (some "res_1")
        running_store)
      running_store
      first_output
insert_final-Outcome_example =
    insert_final-Outcome "job_1" "t1" new_asset false its_slot none (some "res_1") running_store

finds_running : find_row job_key "job_1" running_store.jobs ≡ some (set_running queued_job)
unfolding find_row
finds_running = refl

stale_reservation_lem_example :
    (insert_final_asset_and_complete_job "job_1" "t1" new_asset false its_slot none
        (some "res_0")
        running_store
      ≡ (ok already_terminal, running_store))
    × (insert_preview_asset_and_mark_preview_ready "job_1" "t1" new_asset none
          (some "res_0")
          running_store
        ≡ (ok already_terminal, running_store))
    × (mark_running "job_1" "t1" (some "res_0") running_store.jobs ≡ none)
    × (claim_preview_finalization "job_1" "t1" (some "res_0") running_store.jobs ≡ none)
    × (mark_completed "job_1" "t1" [] (some "res_0") running_store.jobs ≡ none)
    × (mark_failed "job_1" "t1" "c" "m" false (some "res_0") running_store.jobs ≡ none)
unfolding owns
stale_reservation_lem_example =
    stale_reservation_lem "job_1" "t1" "res_0" (set_running queued_job) running_store finds_running
      refl new_asset false its_slot none [] "c" "m" false

-- bfl always fails, fal makes the image.
abbrev second_works : Outside
second_works = record {
  registered = λ _. true;
  generate = λ r _.
      if r.provider_id == "fal" then made 900 (some 400) else refused provider_failed 50 none;
  new_attempt_id = λ attempts. "attempt";
  new_event_id = λ events. "event";
}

-- bfl rejects the content.
abbrev first_rejects : Outside
first_rejects = record {
  registered = λ _. true;
  generate = λ r _.
      if r.provider_id == "fal"
      then made 900 (some 400)
      else refused content_policy_rejected 50 none;
  new_attempt_id = λ attempts. "attempt";
  new_event_id = λ events. "event";
}

-- The fallback generates, and a rejection is not walked around.
falls_back :
    (generate_with_fallback second_works queued_job primary_route 1 running_store).0
    ≡ generated fallback_route "attempt" 900 (some 400)
unfolding generate_with_fallback walk_routes billable_call_cap billable_units is_preview_first
    count_provider_attempts keep_if fallback_routes_from_payload record_attempt_failure
    mark_provider_attempt_failed update_row insert_provider_attempt
falls_back = refl

stops :
    (generate_with_fallback first_rejects queued_job primary_route 1 running_store).0
    ≡ gen_failed content_policy_rejected
unfolding generate_with_fallback walk_routes billable_call_cap billable_units is_preview_first
    count_provider_attempts keep_if
stops = refl

generate_with_fallback-Explains_example :
    Explains second_works queued_job 3
      (λ r. Occurs r (chain queued_job primary_route))
      (chain queued_job primary_route)
      false
      (generate_with_fallback second_works queued_job primary_route 1 running_store)
unfolding billable_call_cap billable_units is_preview_first
generate_with_fallback-Explains_example =
    generate_with_fallback-Explains second_works queued_job primary_route 1 running_store

walk_routes-StopsAtRejection_example : StopsAtRejection (
    walk_routes first_rejects queued_job 3 1
      (chain queued_job primary_route)
      false
      none
      running_store)
walk_routes-StopsAtRejection_example =
    walk_routes-StopsAtRejection first_rejects queued_job 3 1 (chain queued_job primary_route) false
      none running_store tt

-- Three attempts of the queue would call the two providers five times; the cap stops at three.
run_attempts-billed_example :
    billed queued_job (
      run_attempts queued_job primary_route
        ((first_rejects, 1) ∷ (second_works, 2) ∷ (second_works, 3) ∷ [])
        running_store)
    ≤ 3
unfolding billable_call_cap billable_units is_preview_first count_provider_attempts keep_if
run_attempts-billed_example =
    run_attempts-billed queued_job primary_route
      ((first_rejects, 1) ∷ (second_works, 2) ∷ (second_works, 3) ∷ []) running_store 3
      (omega arith) (omega arith)

fallback_route-Works : Works second_works fallback_route
fallback_route-Works = (refl, λ _. (900, some 400, refl))

never_rejects : All (NeverRejects second_works) (chain queued_job primary_route)
unfolding fallback_routes_from_payload keep_if
never_rejects = (
  λ attempts e latency cost reply.
      let computed : refused provider_failed 50 none ≡ refused e latency cost = reply in
      let other : e ≡ provider_failed = cc in rw other refl,
  (λ attempts e latency cost reply. cc, tt),
)

generate_with_fallback-succeeds_example :
    is_generated (generate_with_fallback second_works queued_job primary_route 1 running_store).0
    ≡ true
unfolding fallback_routes_from_payload keep_if count_provider_attempts billable_call_cap
    billable_units is_preview_first
generate_with_fallback-succeeds_example =
    generate_with_fallback-succeeds second_works queued_job primary_route fallback_route 1
      running_store fallback_route-Works (inr (inl refl)) never_rejects (omega arith)

-- Two workers have both read the queued row.
first_claims : (claim_queued_job queued_job 0 "res_1" (store_of queued_job)).0 ≡ true
unfolding claim_queued_job mark_running update_job find_row owns
first_claims = refl

first_claims_lem_example :
    ((claim_queued_job queued_job 0 "res_1" (store_of queued_job)).0 ≡ true
      → claim_queued_job queued_job 0 ""
          (claim_queued_job queued_job 0 "res_1" (store_of queued_job)).1
        ≡ (false, (claim_queued_job queued_job 0 "res_1" (store_of queued_job)).1))
    × ((claim_final_phase queued_job 0 "res_1" (store_of queued_job)).0 ≡ true
        → claim_final_phase queued_job 0 ""
            (claim_final_phase queued_job 0 "res_1" (store_of queued_job)).1
          ≡ (false, (claim_final_phase queued_job 0 "res_1" (store_of queued_job)).1))
first_claims_lem_example =
    first_claims_lem queued_job queued_job "res_1" "" (store_of queued_job) refl

abbrev no_costs : Db
no_costs = record {
  prices = [];
  budgets = [];
  holds = [];
  reservations = [];
  events = [];
  jobs = [];
  ledger = [];
}

abbrev running_tables : Tables
running_tables = record { store = running_store; db = no_costs }

-- The last attempt fails, and one before it leaves the job.
after_failed_walk-live_example :
    let w' = (after_failed_walk queued_job provider_failed "timeout" 2 "res_1" running_tables).1 in
    (Ends provider_failed 2
      → (find_row job_key "job_1" w'.store.jobs
          ≡ some (record (set_running queued_job) {
            status = failed;
            error_code = some "provider_failure";
            error_message = some "timeout";
            retryable = some false;
          }))
        × (w'.db ≡ finalize release "job_1" "res_1" no_costs))
    × (¬ Ends provider_failed 2 → w' ≡ running_tables)
unfolding owns
after_failed_walk-live_example =
    after_failed_walk-live queued_job (set_running queued_job) provider_failed "timeout" 2 "res_1"
      running_tables finds_running refl refl refl

after_failed_walk-late_example :
    (after_failed_walk queued_job content_policy_rejected "moderated" 0 "res_1"
      (record { store = store_of cancelled_job; db = no_costs })).1
    ≡ record { store = store_of cancelled_job; db = no_costs }
after_failed_walk-late_example =
    after_failed_walk-late queued_job cancelled_job content_policy_rejected "moderated" 0 "res_1"
      (record { store = store_of cancelled_job; db = no_costs }) finds_cancelled refl
