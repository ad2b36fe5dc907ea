-- ===== src/Jobs/Billing.antt =====
-- Proofs about the walk over the routes: the calls it bills, when it stops, and when it succeeds.
use dreamchat_image_platform.Common.{
  ℕ, suc, Bool, true, false, leb, ◌≤◌, ◌<◌, Option, none, some, List, [], ◌∷◌, keep_if, ◌≡◌, refl,
  arith, eq_refl, Bool-cases, inl, inr, ◌⊎◌, leb→le,
}
use dreamchat_image_platform.Common.Tables.{update_row}
use dreamchat_image_platform.Jobs.{
  ResolvedRoute, GenerationJob, ProviderAttempt, started, attempt_failed, Store,
}
use dreamchat_image_platform.Jobs.Queries.{count_provider_attempts, mark_provider_attempt_failed}
use dreamchat_image_platform.Jobs.Fallback.{
  GenerationError, billable_cap_reached, ProviderReply, made, refused, Outside, is_content_rejected,
  last_or, Generated, generated, gen_failed, error_code_for, insert_provider_attempt,
  record_attempt_failure, started_attempt, failed_attempt, walk_routes, generate_with_fallback,
  run_attempts, billable_call_cap, fallback_routes_from_payload,
}

-- The row that a refused call leaves.
abbrev pub failed_row :
    Outside → GenerationJob → ResolvedRoute → ℕ → GenerationError → ℕ → Store → ProviderAttempt
failed_row out job route number e latency st = record {
  id = out.new_attempt_id st.attempts;
  generation_job_id = job.id;
  provider_id = route.provider_id;
  model_id = route.model_id;
  attempt_number = number;
  status = attempt_failed;
  error_code = some (error_code_for e);
  latency_ms = some latency;
}

pub failed_attempt-attempts :
    (out : Outside) (job : GenerationJob) (route : ResolvedRoute) (number : ℕ) (e : GenerationError)
    (latency : ℕ) (cost : Option ℕ) (st : Store)
    → (failed_attempt out job route number e latency cost st).attempts
      ≡ failed_row out job route number e latency st ∷ st.attempts
unfolding record_attempt_failure mark_provider_attempt_failed insert_provider_attempt update_row
failed_attempt-attempts out job route number e latency cost st =
    rw (eq_refl (out.new_attempt_id st.attempts)) refl

count_attempt :
    (a : ProviderAttempt) (attempts : List ProviderAttempt)
    → count_provider_attempts a.generation_job_id (a ∷ attempts)
      ≡ suc (count_provider_attempts a.generation_job_id attempts)
unfolding count_provider_attempts keep_if
count_attempt a attempts = rw (eq_refl a.generation_job_id) refl

ProviderReply-cases :
    (r : ProviderReply)
    → ((latency : ℕ) × (cost : Option ℕ) × (r ≡ made latency cost))
      ⊎ ((e : GenerationError) × (latency : ℕ) × (cost : Option ℕ) × (r ≡ refused e latency cost))
ProviderReply-cases (made latency cost) = inl (latency, cost, refl)
ProviderReply-cases (refused e latency cost) = inr (e, latency, cost, refl)

not_full : (cap n : ℕ) → leb cap n ≡ false → n < cap
not_full cap n h = ground arith

-- A split on what the walk does with a route, for a property of what it returns.
module _ (P : Generated × Store → Type 0) (out : Outside) (job : GenerationJob) (cap number : ℕ)
    (route : ResolvedRoute) (routes : List ResolvedRoute) (any_adapter : Bool)
    (last : Option GenerationError) (st : Store) where
  pub walk_routes-cases :
      (out.registered route.provider_id ≡ false
        → P (walk_routes out job cap number routes any_adapter last st))
      → (cap ≤ count_provider_attempts job.id st.attempts
          → P (gen_failed (last_or billable_cap_reached last), st))
      → ((latency : ℕ) (cost : Option ℕ)
          → count_provider_attempts job.id st.attempts < cap
          → out.registered route.provider_id ≡ true
          → out.generate route st.attempts ≡ made latency cost
          → P (
            generated route (out.new_attempt_id st.attempts) latency cost,
            started_attempt out job route number st,
          ))
      → ((e : GenerationError) (latency : ℕ) (cost : Option ℕ)
          → count_provider_attempts job.id st.attempts < cap
          → out.generate route st.attempts ≡ refused e latency cost
          → is_content_rejected e ≡ true
          → P (gen_failed e, failed_attempt out job route number e latency cost st))
      → ((e : GenerationError) (latency : ℕ) (cost : Option ℕ)
          → count_provider_attempts job.id st.attempts < cap
          → out.generate route st.attempts ≡ refused e latency cost
          → is_content_rejected e ≡ false
          → P (
              walk_routes out job cap number routes true
                (some e)
                (failed_attempt out job route number e latency cost st)))
      → P (walk_routes out job cap number (route ∷ routes) any_adapter last st)
  unfolding walk_routes
  walk_routes-cases skipped capped succeeded rejected next =
      elim (Bool-cases (out.registered route.provider_id)) [
        | inl known ↦ elim (Bool-cases (leb cap (count_provider_attempts job.id st.attempts))) [
          | inl full ↦ rw (walk_routes, known, full) (capped (leb→le _ _ full))
          | inr free ↦
              let below = not_full cap _ free in
              elim (ProviderReply-cases (out.generate route st.attempts)) [
                | inl (latency, cost, reply) ↦
                    rw (walk_routes, known, free, reply) (succeeded latency cost below known reply)
                | inr (e, latency, cost, reply) ↦ elim (Bool-cases (is_content_rejected e)) [
                  | inl stop ↦
                      rw (walk_routes, known, free, reply, stop)
                        (rejected e latency cost below reply stop)
                  | inr go ↦
                      rw (walk_routes, known, free, reply, go) (next e latency cost below reply go)
                ]
              ]
        ]
        | inr unknown ↦ rw (walk_routes, unknown) (skipped unknown)
      ]

-- The calls billed to a job so far.
abbrev pub billed : GenerationJob → Store → ℕ
billed job st = count_provider_attempts job.id st.attempts

billed-started_attempt :
    (out : Outside) (job : GenerationJob) (route : ResolvedRoute) (number : ℕ) (st : Store)
    → billed job (started_attempt out job route number st) ≡ suc (billed job st)
unfolding insert_provider_attempt
billed-started_attempt out job route number st =
    count_attempt
      (record {
        id = out.new_attempt_id st.attempts;
        generation_job_id = job.id;
        provider_id = route.provider_id;
        model_id = route.model_id;
        attempt_number = number;
        status = started;
        error_code = none;
        latency_ms = none;
      })
      st.attempts

pub billed-failed_attempt :
    (out : Outside) (job : GenerationJob) (route : ResolvedRoute) (number : ℕ) (e : GenerationError)
    (latency : ℕ) (cost : Option ℕ) (st : Store)
    → billed job (failed_attempt out job route number e latency cost st) ≡ suc (billed job st)
billed-failed_attempt out job route number e latency cost st =
    rw (failed_attempt-attempts out job route number e latency cost st)
      (count_attempt (failed_row out job route number e latency st) st.attempts)

walk_routes-billed :
    (out : Outside) (job : GenerationJob) (cap number n : ℕ) (routes : List ResolvedRoute)
    (any_adapter : Bool) (last : Option GenerationError) (st : Store)
    → cap ≤ n
    → billed job st ≤ n
    → billed job (walk_routes out job cap number routes any_adapter last st).1 ≤ n
unfolding walk_routes
walk_routes-billed out job cap number n [] any_adapter last st c h = h
walk_routes-billed out job cap number n (route ∷ routes) any_adapter last st c h =
    walk_routes-cases (λ r. billed job r.1 ≤ n) out job cap number route routes any_adapter last st
      (λ _. walk_routes-billed out job cap number n routes any_adapter last st c h) (λ _. h)
      (λ latency cost below _ _. rw (billed-started_attempt out job route number st) (omega arith))
      (λ e latency cost below _ _.
        rw (billed-failed_attempt out job route number e latency cost st) (omega arith))
      (λ e latency cost below _ _.
        walk_routes-billed out job cap number n routes true (some e) _ c
          (rw (billed-failed_attempt out job route number e latency cost st) (omega arith)))

-- However often the queue runs a job, and whatever the providers reply, the calls billed to the job are at
-- most its cap, or as many as before if those were more.
pub run_attempts-billed :
    (job : GenerationJob) (primary : ResolvedRoute) (attempts : List (Outside × ℕ)) (st : Store)
    (n : ℕ)
    → billable_call_cap job.input_payload ≤ n
    → billed job st ≤ n
    → billed job (run_attempts job primary attempts st) ≤ n
unfolding run_attempts generate_with_fallback
run_attempts-billed job primary [] st n c h = h
run_attempts-billed job primary ((out, number) ∷ attempts) st n c h =
    run_attempts-billed job primary attempts _ n c (
      walk_routes-billed out job (billable_call_cap job.input_payload) number n
        (primary ∷ fallback_routes_from_payload job.input_payload) false none st c h)
