-- ===== src/Routing/Chain.antt =====
-- `Resolve` and `ResolveChain` of internal/providers/routing/routing.go: they agree, the chain is the
-- eligible routes in ranking order, and what is resolved is eligible.
use dreamchat_image_platform.Common.{
  ◌≡◌, refl, ◌≢◌, ◌⊎◌, inl, inr, true, false, not, some, List, [], ◌∷◌, map, keep_if,
  keep_if-Occurs, Occurs-keep_if, All-Occurs, Occurs, is_empty, arith, subst, sym, &&_split, eq_iff,
  ◌||◌,
}
use mathlib.Core.List.{Perm}
use dreamchat_image_platform.Common.Sort.{
  stable_sort, scan_best, first_of_list, first-stable_sort, stable_sort-Perm, stable_sort-Ordered,
  Ordered, scan_best_least, Occurs-scan_best,
}
use dreamchat_image_platform.Providers.{CapabilityIndex, capabilities_of}
use dreamchat_image_platform.Providers.Hierarchy.{provider_satisfies_route-real}
use dreamchat_image_platform.Routing.{
  RouteError, index_out_of_range, Result, ok, err, ◌>>=◌, ResolveRequest, ResolvedRoute, Route,
  Resolver, resolved_route_from, ranks_before, candidates, best_of, provider_backs, resolve,
  resolve_chain,
}
use dreamchat_image_platform.Routing.Ranking.{ranks_before-IsStrictWeak}
use dreamchat_image_platform.Routing.Filters.{serves_request, eligible, candidates-eligible}

-- `chain[0]`.
abbrev pub primary : List ResolvedRoute → Result ResolvedRoute
primary [] = err index_out_of_range
primary (c ∷ cs) = ok c

best_of-chain :
    (req : ResolveRequest) (rts : List Route)
    → best_of req rts
      ≡ primary (map resolved_route_from (stable_sort (λ a b. ranks_before a b req) rts))
unfolding best_of
best_of-chain req [] = unfold stable_sort in refl
best_of-chain req (rt ∷ rts) =
    go (stable_sort (λ a b. ranks_before a b req) (rt ∷ rts))
      (first-stable_sort (λ a b. ranks_before a b req) (ranks_before-IsStrictWeak req) rt rts)
  where
    go :
        (l : List Route)
        → first_of_list (λ a b. ranks_before a b req) l
          ≡ some (scan_best (λ a b. ranks_before a b req) rt rts)
        → ok (resolved_route_from (scan_best (λ a b. ranks_before a b req) rt rts))
          ≡ primary (map resolved_route_from l)
    go [] e = cc
    go (x ∷ l) e = cc

-- For every resolver and request `resolve` returns the first route of the chain, or the chain's
-- error.
pub resolve-resolve_chain :
    (r : Resolver) (req : ResolveRequest) → resolve r req ≡ (resolve_chain r req >>= primary)
unfolding resolve resolve_chain
resolve-resolve_chain r req = go (candidates r req)
  where
    go :
        (m : Result (List Route))
        → (m >>= best_of req) ≡ (
            (m >>= λ survivors.
            ok (map resolved_route_from (stable_sort (λ a b. ranks_before a b req) survivors)))
            >>= primary)
    go (ok l) = best_of-chain req l
    go (err e) = refl

-- A chain that is returned is the eligible routes of the source, each once, in an order in which no
-- route ranks before one that precedes it.
pub resolve_chain_sorted :
    (r : Resolver) (req : ResolveRequest) (routes : List Route) (chain : List ResolvedRoute)
    → r.source req.operation_type ≡ ok routes
    → resolve_chain r req ≡ ok chain
    → (order : List Route) × (chain ≡ map resolved_route_from order)
      × Perm order (keep_if (eligible r req) routes)
      × Ordered (λ a b. ranks_before a b req) order
unfolding resolve_chain
resolve_chain_sorted r req routes chain h c = elim (candidates-eligible r req routes h) [
  | inl (e, _) ↦ (
    stable_sort (λ a b. ranks_before a b req) (keep_if (eligible r req) routes),
    cc e,
    stable_sort-Perm (λ a b. ranks_before a b req) (keep_if (eligible r req) routes),
    stable_sort-Ordered (λ a b. ranks_before a b req) (ranks_before-IsStrictWeak req)
        (keep_if (eligible r req) routes),
  )
  | inr (_, e, _) ↦ cc e
]

-- The route that is resolved.
abbrev pub IsBest : Resolver → ResolveRequest → List Route → Route → Type 0
IsBest r req routes rt =
    Occurs rt routes
    × (eligible r req rt ≡ true)
    × ((other : Route)
        → Occurs other routes
        → eligible r req other ≡ true
        → ranks_before other rt req ≡ false)

best_of-IsBest :
    (r : Resolver) (req : ResolveRequest) (routes l : List Route)
    → l ≡ keep_if (eligible r req) routes
    → l ≢ []
    → (rt : Route) × (best_of req l ≡ ok (resolved_route_from rt)) × IsBest r req routes rt
unfolding best_of
best_of-IsBest r req routes [] e full = absurd (full refl)
best_of-IsBest r req routes (x ∷ xs) e full =
    let best = scan_best (λ a b. ranks_before a b req) x xs in
    let (there, fits) =
      keep_if-Occurs (eligible r req) best routes
        (subst (λ l. Occurs best l) e (Occurs-scan_best (λ a b. ranks_before a b req) x xs)) in
    (
      best,
      refl,
      (
        there,
        fits,
        λ other m k.
            All-Occurs (λ y. ranks_before y best req ≡ false) other (x ∷ xs)
              (scan_best_least (λ a b. ranks_before a b req) (ranks_before-IsStrictWeak req) x xs)
              (subst (λ l. Occurs other l) (sym e)
                (Occurs-keep_if (eligible r req) other routes m k)),
      ),
    )

-- Where the source lists its routes, `resolve` succeeds exactly if one of them is eligible: it then
-- returns an eligible route that no eligible route ranks before, and otherwise an error.
pub resolve-IsBest :
    (r : Resolver) (req : ResolveRequest) (routes : List Route)
    → r.source req.operation_type ≡ ok routes
    → ((rt : Route) × (resolve r req ≡ ok (resolved_route_from rt)) × IsBest r req routes rt)
      ⊎ ((e : RouteError) × (resolve r req ≡ err e) × (keep_if (eligible r req) routes ≡ []))
unfolding resolve
resolve-IsBest r req routes h = elim (candidates-eligible r req routes h) [
  | inl (e, full) ↦
      rw e (inl (best_of-IsBest r req routes (keep_if (eligible r req) routes) refl full))
  | inr (x, e, none_left) ↦ rw e (inr (x, refl, none_left))
]

is_empty_of_ne : (index : CapabilityIndex) → index ≢ [] → is_empty index ≡ false
is_empty_of_ne [] h = absurd (h refl)
is_empty_of_ne (x ∷ xs) h = refl

eligible_real :
    (r : Resolver) (req : ResolveRequest) (rt : Route)
    → r.capabilities ≢ []
    → r.allow_synthetic_identity ≡ false
    → rt.required_capability ≢ ""
    → eligible r req rt ≡ true
    → (capabilities_of r.capabilities rt.provider_id).synthetic ≡ false
eligible_real r req rt wired real claims e =
    provider_satisfies_route-real (capabilities_of r.capabilities rt.provider_id)
      rt.required_capability
      (ground (
        arith,
        &&_split (serves_request r req rt)
            (not (not (is_empty r.capabilities)) || provider_backs r rt) e,
        is_empty_of_ne r.capabilities wired,
        eq_iff rt.required_capability "",
      ))

-- Where the capability index is wired and synthetic providers are not allowed, none of the routes that
-- `candidates` lets through, the ones that `Resolve` and `ResolveChain` choose from, has a synthetic
-- provider and claims a capability.
pub candidates-real :
    (r : Resolver) (req : ResolveRequest) (routes rts : List Route)
    → r.source req.operation_type ≡ ok routes
    → r.capabilities ≢ []
    → r.allow_synthetic_identity ≡ false
    → candidates r req ≡ ok rts
    → (rt : Route) → Occurs rt rts
    → rt.required_capability ≢ ""
    → (capabilities_of r.capabilities rt.provider_id).synthetic ≡ false
candidates-real r req routes rts h wired real through rt there claims =
    elim (candidates-eligible r req routes h) [
      | inl (e, _) ↦
          let same : keep_if (eligible r req) routes ≡ rts = cc in
          let (_, fits) =
            keep_if-Occurs (eligible r req) rt routes (subst (λ l. Occurs rt l) (sym same) there) in
          eligible_real r req rt wired real claims fits
      | inr (x, e, _) ↦ cc
    ]
