-- ===== src/Jobs/Fallback.antt =====
-- The provider calls of internal/jobs/worker.go: the routes of a job, the cap on the calls it may bill,
-- and the walk over the routes. The providers themselves, and the ids that are drawn, are a parameter.
-- Of provider_attempts, what a provider reports of its billing (provider_request_id, actual_cost,
-- currency) is left out.
use dreamchat_image_platform.Common.{
  ℕ, String, Bool, true, false, not, ◌&&◌, ◌||◌, ◌==◌, leb, ltb, ◌*◌, Option, none, some, List, [],
  ◌∷◌, if◌then◌else◌, length, keep_if,
}
use dreamchat_image_platform.Jobs.{
  ResolvedRoute, Payload, GenerationJob, ProviderAttempt, ProviderEvent, started, Store,
}
use dreamchat_image_platform.Jobs.Queries.{count_provider_attempts, mark_provider_attempt_failed}

-- The errors that the worker tells apart with errors.Is; `provider_failed` is any other.
pub data GenerationError : Type 0 where
  storage_failure persistence_error max_megapixels_exceeded provider_unavailable : GenerationError
  content_policy_rejected provider_unpaid reference_required : GenerationError
  billable_cap_reached provider_failed : GenerationError

-- What an adapter's Generate returns: the latency, and the cost if it reports one in USD.
pub data ProviderReply : Type 0 where
  made : ℕ → Option ℕ → ProviderReply
  refused : GenerationError → ℕ → Option ℕ → ProviderReply

-- The provider registry and its adapters, whose reply may depend on what was called before, and the ids
-- of new rows.
pub record Outside : Type 0 where
  pub registered : String → Bool
  pub generate : ResolvedRoute → List ProviderAttempt → ProviderReply
  pub new_attempt_id : List ProviderAttempt → String
  pub new_event_id : List ProviderEvent → String

abbrev pub max_attempts : ℕ
max_attempts = 3

abbrev pub max_billable_calls_per_unit : ℕ
max_billable_calls_per_unit = 3

abbrev is_runnable : ResolvedRoute → Bool
is_runnable r = not (r.provider_id == "" || r.model_id == "")

unfoldable pub resolved_route_from_payload : Payload → Option ResolvedRoute
resolved_route_from_payload p =
    let r : ResolvedRoute = record {
      provider_id = p.provider_id;
      model_id = p.model_id;
      route_id = p.route_id;
    } in
    if is_runnable r then some r else none

unfoldable pub fallback_routes_from_payload : Payload → List ResolvedRoute
fallback_routes_from_payload p = keep_if is_runnable p.fallback_routes

unfoldable pub is_preview_first : Payload → Bool
is_preview_first p = p.delivery_mode == "preview_first" && p.preview_capability == "true_preview"

-- The units that the reservation priced, and at least the payload's own shape.
unfoldable pub billable_units : Payload → ℕ
billable_units p =
    let cells = length p.variant_keys in
    let units = if ltb p.units cells then cells else p.units in
    let phases = if is_preview_first p && ltb units 2 then 2 else units in
    if ltb phases 1 then 1 else phases

unfoldable pub billable_call_cap : Payload → ℕ
billable_call_cap p = billable_units p * max_billable_calls_per_unit

abbrev pub terminal_generation_error : GenerationError → Bool
terminal_generation_error content_policy_rejected = true
terminal_generation_error billable_cap_reached = true
terminal_generation_error provider_unpaid = true
terminal_generation_error e = false

unfoldable pub error_code_for : GenerationError → String
error_code_for storage_failure = "storage_failure"
error_code_for persistence_error = "persistence_error"
error_code_for max_megapixels_exceeded = "max_megapixels_exceeded"
error_code_for provider_unavailable = "provider_unavailable"
error_code_for content_policy_rejected = "provider_content_rejected"
error_code_for provider_unpaid = "provider_unpaid"
error_code_for reference_required = "missing_reference_assets"
error_code_for billable_cap_reached = "provider_failure"
error_code_for provider_failed = "provider_failure"

-- InsertProviderAttempt
unfoldable pub insert_provider_attempt :
    String → String → ResolvedRoute → ℕ → List ProviderAttempt → List ProviderAttempt
insert_provider_attempt id job route number attempts =
    record {
      id = id;
      generation_job_id = job;
      provider_id = route.provider_id;
      model_id = route.model_id;
      attempt_number = number;
      status = started;
      error_code = none;
      latency_ms = none;
    }
    ∷ attempts

-- recordAttemptFailureWithCost: the attempt, and an event that it failed.
unfoldable pub record_attempt_failure :
    Outside → GenerationJob → String → String → GenerationError → ℕ → Option ℕ → Store → Store
record_attempt_failure out job attempt provider e latency cost st = record st {
  attempts = mark_provider_attempt_failed attempt (error_code_for e) latency st.attempts;
  events =
      record {
        id = out.new_event_id st.events;
        job_id = job.id;
        cost_reservation_id = job.cost_reservation_id;
        asset_id = none;
        provider_id = provider;
        provider_attempt_id = attempt;
        actual_cost_usd = cost;
        status = "failed";
      }
      ∷ st.events;
}

-- genResult and its error; `nothing` is the zero result without an error.
pub data Generated : Type 0 where
  generated : ResolvedRoute → String → ℕ → Option ℕ → Generated
  gen_failed : GenerationError → Generated
  nothing : Generated

abbrev pub is_content_rejected : GenerationError → Bool
is_content_rejected content_policy_rejected = true
is_content_rejected e = false

-- lastErr, or another error when there was none.
abbrev pub last_or : GenerationError → Option GenerationError → GenerationError
last_or e none = e
last_or e (some last) = last

-- After the last route; the Boolean is anyAdapter.
abbrev pub after_routes : Bool → Option GenerationError → Generated
after_routes false last = gen_failed provider_unavailable
after_routes true none = nothing
after_routes true (some e) = gen_failed e

-- The attempt row of one call.
abbrev pub started_attempt : Outside → GenerationJob → ResolvedRoute → ℕ → Store → Store
started_attempt out job route number st = record st {
  attempts =
      insert_provider_attempt (out.new_attempt_id st.attempts) job.id route number st.attempts;
}

-- The store after a call that the provider refused.
abbrev pub failed_attempt :
    Outside → GenerationJob → ResolvedRoute → ℕ → GenerationError → ℕ → Option ℕ → Store → Store
failed_attempt out job route number e latency cost st =
    record_attempt_failure out job (out.new_attempt_id st.attempts) route.provider_id e latency cost
      (started_attempt out job route number st)

-- The loop over the routes.
unfoldable pub walk_routes :
    Outside
    → GenerationJob
    → ℕ
    → ℕ
    → List ResolvedRoute
    → Bool
    → Option GenerationError
    → Store
    → Generated × Store
walk_routes out job cap number [] any_adapter last st = (after_routes any_adapter last, st)
walk_routes out job cap number (route ∷ routes) any_adapter last st =
    elim (out.registered route.provider_id) [
      | false ↦ walk_routes out job cap number routes any_adapter last st
      | true ↦ elim (leb cap (count_provider_attempts job.id st.attempts)) [
        | true ↦ (gen_failed (last_or billable_cap_reached last), st)
        | false ↦ elim (out.generate route st.attempts) [
          | made latency cost ↦ (
            generated route (out.new_attempt_id st.attempts) latency cost,
            started_attempt out job route number st,
          )
          | refused e latency cost ↦
              let st' = failed_attempt out job route number e latency cost st in
              elim (is_content_rejected e) [
                | true ↦ (gen_failed e, st')
                | false ↦ walk_routes out job cap number routes true (some e) st'
              ]
        ]
      ]
    ]

-- generateWithFallback
unfoldable pub generate_with_fallback :
    Outside → GenerationJob → ResolvedRoute → ℕ → Store → Generated × Store
generate_with_fallback out job primary number st =
    walk_routes out job (billable_call_cap job.input_payload) number
      (primary ∷ fallback_routes_from_payload job.input_payload) false none st

-- The walks of the attempts that the queue makes of one task, each with the providers as they are then.
unfoldable pub run_attempts : GenerationJob → ResolvedRoute → List (Outside × ℕ) → Store → Store
run_attempts job primary [] st = st
run_attempts job primary ((out, number) ∷ attempts) st =
    run_attempts job primary attempts (generate_with_fallback out job primary number st).1
