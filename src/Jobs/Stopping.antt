-- ===== src/Jobs/Stopping.antt =====
-- Proofs about when the walk over the routes stops: a content-policy rejection ends it, and a route that
-- works is reached.
use dreamchat_image_platform.Common.{
  ℕ, String, Bool, true, false, ◌==◌, ◌+◌, ◌≤◌, Option, none, some, List, [], ◌∷◌, length, ◌≡◌,
  refl, arith, inl, inr, ◌⊎◌, All, Occurs,
}
use dreamchat_image_platform.Jobs.{ResolvedRoute, GenerationJob, ProviderAttempt, Store}
use dreamchat_image_platform.Jobs.Fallback.{
  GenerationError, storage_failure, persistence_error, max_megapixels_exceeded, provider_unpaid,
  reference_required, provider_failed, content_policy_rejected, billable_cap_reached,
  provider_unavailable, made, refused, Outside, is_content_rejected, Generated, generated,
  gen_failed, nothing, error_code_for, insert_provider_attempt, walk_routes, generate_with_fallback,
  billable_call_cap,
}
use dreamchat_image_platform.Jobs.Billing.{
  billed, billed-failed_attempt, walk_routes-cases, failed_attempt-attempts,
}
use dreamchat_image_platform.Jobs.Walking.{chain}

abbrev pub is_rejection : Option String → Bool
is_rejection none = false
is_rejection (some code) = code == "provider_content_rejected"

abbrev pub NoRejection : List ProviderAttempt → Type 0
NoRejection = All (λ a. is_rejection a.error_code ≡ false)

abbrev pub earlier : List ProviderAttempt → List ProviderAttempt
earlier [] = []
earlier (a ∷ attempts) = attempts

-- No attempt was rejected, or the last one was and the walk ended with it.
abbrev pub StopsAtRejection : Generated × Store → Type 0
StopsAtRejection r =
    NoRejection r.1.attempts
    ⊎ ((r.0 ≡ gen_failed content_policy_rejected) × NoRejection (earlier r.1.attempts))

error_code_for-is_rejection :
    (e : GenerationError)
    → is_content_rejected e ≡ false
    → is_rejection (some (error_code_for e)) ≡ false
unfolding error_code_for
error_code_for-is_rejection storage_failure h = refl
error_code_for-is_rejection persistence_error h = refl
error_code_for-is_rejection max_megapixels_exceeded h = refl
error_code_for-is_rejection provider_unavailable h = refl
error_code_for-is_rejection content_policy_rejected h = cc
error_code_for-is_rejection provider_unpaid h = refl
error_code_for-is_rejection reference_required h = refl
error_code_for-is_rejection billable_cap_reached h = refl
error_code_for-is_rejection provider_failed h = refl

is_content_rejected-true :
    (e : GenerationError) → is_content_rejected e ≡ true → e ≡ content_policy_rejected
is_content_rejected-true storage_failure h = cc
is_content_rejected-true persistence_error h = cc
is_content_rejected-true max_megapixels_exceeded h = cc
is_content_rejected-true provider_unavailable h = cc
is_content_rejected-true content_policy_rejected h = refl
is_content_rejected-true provider_unpaid h = cc
is_content_rejected-true reference_required h = cc
is_content_rejected-true billable_cap_reached h = cc
is_content_rejected-true provider_failed h = cc

-- If no earlier attempt was rejected for its content, then after the walk either none is, or the walk
-- failed with the rejection and the rejected attempt is the last that was made: no further route was
-- called.
pub walk_routes-StopsAtRejection :
    (out : Outside) (job : GenerationJob) (cap number : ℕ) (routes : List ResolvedRoute)
    (tried : Bool) (last : Option GenerationError) (st : Store)
    → NoRejection st.attempts
    → StopsAtRejection (walk_routes out job cap number routes tried last st)
unfolding walk_routes insert_provider_attempt
walk_routes-StopsAtRejection out job cap number [] tried last st h = inl h
walk_routes-StopsAtRejection out job cap number (route ∷ routes) tried last st h =
    walk_routes-cases StopsAtRejection out job cap number route routes tried last st
      (λ _. walk_routes-StopsAtRejection out job cap number routes tried last st h) (λ _. inl h)
      (λ latency cost _ _ _. inl (refl, h))
      (λ e latency cost _ _ stop. inr (
        rw (is_content_rejected-true e stop) refl,
        rw (failed_attempt-attempts out job route number e latency cost st) h,
      ))
      (λ e latency cost _ _ go.
        walk_routes-StopsAtRejection out job cap number routes true (some e) _ (
          rw (failed_attempt-attempts out job route number e latency cost st)
            (error_code_for-is_rejection e go, h)))

abbrev pub is_generated : Generated → Bool
is_generated (generated route id latency cost) = true
is_generated (gen_failed e) = false
is_generated nothing = false

-- A route that always makes an image.
abbrev pub Works : Outside → ResolvedRoute → Type 0
Works out route =
    (out.registered route.provider_id ≡ true)
    × ((attempts : List ProviderAttempt)
        → (latency : ℕ) × (cost : Option ℕ) × (out.generate route attempts ≡ made latency cost))

abbrev pub NeverRejects : Outside → ResolvedRoute → Type 0
NeverRejects out route =
    (attempts : List ProviderAttempt) (e : GenerationError) (latency : ℕ) (cost : Option ℕ)
    → out.generate route attempts ≡ refused e latency cost
    → is_content_rejected e ≡ false

walk_routes-succeeds :
    (out : Outside) (job : GenerationJob) (cap number : ℕ) (good : ResolvedRoute)
    (routes : List ResolvedRoute) (tried : Bool) (last : Option GenerationError) (st : Store)
    → Works out good
    → Occurs good routes
    → All (NeverRejects out) routes
    → billed job st + length routes ≤ cap
    → is_generated (walk_routes out job cap number routes tried last st).0 ≡ true
unfolding walk_routes
walk_routes-succeeds out job cap number good [] tried last st works m never room = elim m [ ]
walk_routes-succeeds out job cap number good (route ∷ routes) tried last st works (inl m) never
      room =
    let known : out.registered route.provider_id ≡ true = rw m at works.0 in
    let (latency', cost', reply') = works.1 st.attempts in
    let reply'' : out.generate route st.attempts ≡ made latency' cost' = rw m at reply' in
    walk_routes-cases (λ r. is_generated r.0 ≡ true) out job cap number route routes tried last st
      (λ skipped. cc) (λ full. ground arith) (λ latency cost _ _ _. refl)
      (λ e latency cost _ reply stop. cc) (λ e latency cost _ reply go. cc)
walk_routes-succeeds out job cap number good (route ∷ routes) tried last st works (inr m) never
      room =
    walk_routes-cases (λ r. is_generated r.0 ≡ true) out job cap number route routes tried last st
      (λ _.
        walk_routes-succeeds out job cap number good routes tried last st works m never.1
          (omega arith))
      (λ full. ground arith) (λ latency cost _ _ _. refl)
      (λ e latency cost _ reply stop. let go = never.0 st.attempts e latency cost reply in cc)
      (λ e latency cost _ reply go.
        walk_routes-succeeds out job cap number good routes true (some e) _ works m never.1
          (rw (billed-failed_attempt out job route number e latency cost st) (omega arith)))

-- Where the cap leaves room for every route of the chain, no route rejects the content, and some
-- registered route of the chain makes an image whenever it is called, the walk generates.
pub generate_with_fallback-succeeds :
    (out : Outside) (job : GenerationJob) (primary good : ResolvedRoute) (number : ℕ) (st : Store)
    → Works out good
    → Occurs good (chain job primary)
    → All (NeverRejects out) (chain job primary)
    → billed job st + length (chain job primary) ≤ billable_call_cap job.input_payload
    → is_generated (generate_with_fallback out job primary number st).0 ≡ true
unfolding generate_with_fallback
generate_with_fallback-succeeds out job primary good number st works m never room =
    walk_routes-succeeds out job (billable_call_cap job.input_payload) number good
      (chain job primary) false none st works m never room
