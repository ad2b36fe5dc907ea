-- ===== src/Jobs/Walking.antt =====
-- Proofs about what the walk over the routes returns: why it failed, and what a success is.
use dreamchat_image_platform.Common.{
  ℕ, Bool, true, false, ◌≤◌, Option, none, some, List, [], ◌∷◌, ◌≡◌, refl, inl, inr, ◌⊎◌, All,
  Occurs,
}
use dreamchat_image_platform.Jobs.{ResolvedRoute, GenerationJob, ProviderAttempt, Store}
use dreamchat_image_platform.Jobs.Fallback.{
  GenerationError, billable_cap_reached, provider_unavailable, made, refused, Outside, last_or,
  after_routes, Generated, generated, gen_failed, nothing, walk_routes, generate_with_fallback,
  billable_call_cap, fallback_routes_from_payload,
}
use dreamchat_image_platform.Jobs.Billing.{billed, walk_routes-cases}

-- A route replied with the error.
abbrev pub Refusal : Outside → (ResolvedRoute → Type 0) → GenerationError → Type 0
Refusal out Known e =
    (route : ResolvedRoute) × Known route
    × (attempts : List ProviderAttempt) × (latency : ℕ) × (cost : Option ℕ) × (out.generate route
          attempts
        ≡ refused e latency cost)

-- Why the walk returned what it did; the Boolean is whether a route was tried before it.
abbrev pub Explains :
    Outside
    → GenerationJob
    → ℕ
    → (ResolvedRoute → Type 0)
    → List ResolvedRoute
    → Bool
    → Generated × Store
    → Type 0
Explains out job cap Known routes tried (generated route id latency cost, t) =
    Known route
    × (out.registered route.provider_id ≡ true)
    × (attempts : List ProviderAttempt) × (out.generate route attempts ≡ made latency cost)
Explains out job cap Known routes tried (gen_failed e, t) =
    ((tried ≡ false)
      × (e ≡ provider_unavailable)
      × All (λ r. out.registered r.provider_id ≡ false) routes)
    ⊎ (((e ≡ billable_cap_reached) × (cap ≤ billed job t)) ⊎ Refusal out Known e)
Explains out job cap Known routes tried (nothing, t) = ⊥

-- lastErr is set exactly when an adapter was found, to what a route replied.
abbrev LastIs : Outside → (ResolvedRoute → Type 0) → Bool → Option GenerationError → Type 0
LastIs out Known false none = Unit
LastIs out Known true (some e) = Refusal out Known e
LastIs out Known tried last = ⊥

after_routes-Explains :
    (out : Outside) (job : GenerationJob) (cap : ℕ) (Known : ResolvedRoute → Type 0) (tried : Bool)
    (last : Option GenerationError) (st : Store)
    → LastIs out Known tried last
    → Explains out job cap Known [] tried (after_routes tried last, st)
after_routes-Explains out job cap Known false none st h = inl (refl, refl, tt)
after_routes-Explains out job cap Known false (some e) st h = elim h [ ]
after_routes-Explains out job cap Known true none st h = elim h [ ]
after_routes-Explains out job cap Known true (some e) st h = inr (inr h)

capped-Explains :
    (out : Outside) (job : GenerationJob) (cap : ℕ) (Known : ResolvedRoute → Type 0)
    (routes : List ResolvedRoute) (tried : Bool) (last : Option GenerationError) (st : Store)
    → LastIs out Known tried last
    → cap ≤ billed job st
    → Explains out job cap Known routes tried (gen_failed (last_or billable_cap_reached last), st)
capped-Explains out job cap Known routes false none st h full = inr (inl (refl, full))
capped-Explains out job cap Known routes false (some e) st h full = elim h [ ]
capped-Explains out job cap Known routes true none st h full = elim h [ ]
capped-Explains out job cap Known routes true (some e) st h full = inr (inr h)

-- A route that was skipped, and one that was tried, before.
skip-Explains :
    (out : Outside) (job : GenerationJob) (cap : ℕ) (Known : ResolvedRoute → Type 0)
    (route : ResolvedRoute) (routes : List ResolvedRoute) (tried : Bool) (r : Generated × Store)
    → out.registered route.provider_id ≡ false
    → Explains out job cap Known routes tried r
    → Explains out job cap Known (route ∷ routes) tried r
skip-Explains out job cap Known route routes tried (generated r id latency cost, t) skipped h = h
skip-Explains out job cap Known route routes tried (gen_failed e, t) skipped (inl h) =
    inl (h.0, h.1, (skipped, h.2))
skip-Explains out job cap Known route routes tried (gen_failed e, t) skipped (inr h) = inr h
skip-Explains out job cap Known route routes tried (nothing, t) skipped h = h

tried-Explains :
    (out : Outside) (job : GenerationJob) (cap : ℕ) (Known : ResolvedRoute → Type 0)
    (routes routes' : List ResolvedRoute) (tried : Bool) (r : Generated × Store)
    → Explains out job cap Known routes true r
    → Explains out job cap Known routes' tried r
tried-Explains out job cap Known routes routes' tried (generated r id latency cost, t) h = h
tried-Explains out job cap Known routes routes' tried (gen_failed e, t) (inl h) = cc
tried-Explains out job cap Known routes routes' tried (gen_failed e, t) (inr h) = inr h
tried-Explains out job cap Known routes routes' tried (nothing, t) h = h

walk_routes-Explains :
    (out : Outside) (job : GenerationJob) (cap number : ℕ) (Known : ResolvedRoute → Type 0)
    (routes : List ResolvedRoute) (tried : Bool) (last : Option GenerationError) (st : Store)
    → All Known routes
    → LastIs out Known tried last
    → Explains out job cap Known routes tried (walk_routes out job cap number routes tried last st)
unfolding walk_routes
walk_routes-Explains out job cap number Known [] tried last st known h =
    after_routes-Explains out job cap Known tried last st h
walk_routes-Explains out job cap number Known (route ∷ routes) tried last st known h =
    walk_routes-cases (Explains out job cap Known (route ∷ routes) tried) out job cap number route
      routes tried last st
      (λ skipped.
        skip-Explains out job cap Known route routes tried _ skipped
          (walk_routes-Explains out job cap number Known routes tried last st known.1 h))
      (λ full. capped-Explains out job cap Known (route ∷ routes) tried last st h full)
      (λ latency cost _ registered reply. (known.0, registered, st.attempts, reply))
      (λ e latency cost _ reply _. inr (inr (route, known.0, st.attempts, latency, cost, reply)))
      (λ e latency cost _ reply _.
        tried-Explains out job cap Known routes (route ∷ routes) tried _ (
          walk_routes-Explains out job cap number Known routes true (some e) _ known.1
            (route, known.0, st.attempts, latency, cost, reply)))

All-weaken :
    {A : Type 0} (P Q : A → Type 0) (xs : List A) → ((a : A) → P a → Q a) → All P xs → All Q xs
All-weaken P Q [] f h = tt
All-weaken P Q (x ∷ xs) f h = (f x h.0, All-weaken P Q xs f h.1)

All-Occurs-self : {A : Type 0} (xs : List A) → All (λ a. Occurs a xs) xs
All-Occurs-self [] = tt
All-Occurs-self (x ∷ xs) = (
  inl refl,
  All-weaken (λ a. Occurs a xs) (λ a. Occurs a (x ∷ xs)) xs (λ a m. inr m) (All-Occurs-self xs),
)

-- The routes of a job: the primary one, then the runnable fallbacks of its payload.
abbrev pub chain : GenerationJob → ResolvedRoute → List ResolvedRoute
chain job primary = primary ∷ fallback_routes_from_payload job.input_payload

-- The walk always returns a result with a reason. A success names a registered route of the chain whose
-- adapter made the image. A failure is that no adapter of the chain is registered, that the cap is
-- reached, or the error that a route of the chain replied.
pub generate_with_fallback-Explains :
    (out : Outside) (job : GenerationJob) (primary : ResolvedRoute) (number : ℕ) (st : Store)
    → Explains out job
        (billable_call_cap job.input_payload)
        (λ r. Occurs r (chain job primary))
        (chain job primary)
        false
        (generate_with_fallback out job primary number st)
unfolding generate_with_fallback
generate_with_fallback-Explains out job primary number st =
    walk_routes-Explains out job (billable_call_cap job.input_payload) number
      (λ r. Occurs r (chain job primary)) (chain job primary) false none st
      (All-Occurs-self (chain job primary)) tt
