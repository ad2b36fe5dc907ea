-- ===== src/Routing/Filters.antt =====
-- The staged filters of `candidates` (internal/providers/routing/routing.go) are one filter: the
-- survivors are the eligible routes in source order, and a request is refused exactly if there are
-- none.
use dreamchat_image_platform.Common.{
  ◌≡◌, refl, ◌≢◌, ◌↔◌, ◌⊎◌, inl, inr, Bool, true, false, not, ◌&&◌, ◌||◌, List, [], ◌∷◌, ◌==◌, ◌!=◌,
  Bool-cases, is_empty, keep_if, keep_if-keep_if, keep_if_none, keep_if_cong, keep_if_all_fail,
  eq_iff, arith, ◌∙◌, sym,
}
use dreamchat_image_platform.Routing.{
  RouteError, no_route, unsupported_capability, provider_unavailable_for_route,
  route_provider_capability_mismatch, requested_provider_unavailable, Result, ok, err, ◌>>=◌,
  ResolveRequest, Route, Resolver, non_empty, active_for, capability_matches, wants_preview,
  provider_backs, pin_provider, stage, candidates,
}

-- Everything a route must meet to serve the request.
abbrev pub pinned_to : ResolveRequest → Route → Bool
pinned_to req rt = not (req.provider_id != "") || rt.provider_id == req.provider_id

abbrev pub serves_request : Resolver → ResolveRequest → Route → Bool
serves_request r req rt =
    active_for req rt
    && (pinned_to req rt
        && (r.available rt.provider_id
            && ((not (req.quality_tier != "") || rt.quality_tier == req.quality_tier)
                && ((not (req.required_capability != "") || capability_matches req rt)
                    && (not (wants_preview req)
                        || rt.preview_capability == req.required_preview_capability)))))

abbrev pub eligible : Resolver → ResolveRequest → Route → Bool
eligible r req rt =
    serves_request r req rt && (not (not (is_empty r.capabilities)) || provider_backs r rt)

-- A result that holds the routes which pass a test, or is refused, with an error of some kind, because
-- none does.
abbrev pub Selects :
    (RouteError → Type 0) → (Route → Bool) → List Route → Result (List Route) → Type 0
Selects E p rts m =
    ((m ≡ ok (keep_if p rts)) × (keep_if p rts ≢ []))
    ⊎ ((e : RouteError) × (m ≡ err e) × E e × (keep_if p rts ≡ []))

>>=_assoc :
    (m : Result (List Route)) (f g : List Route → Result (List Route))
    → (m >>= λ l. f l >>= g) ≡ (m >>= f >>= g)
>>=_assoc (ok l) f g = refl
>>=_assoc (err e) f g = refl

avail_of : Resolver → List Route → Result (List Route)
avail_of r pinned =
    non_empty provider_unavailable_for_route (keep_if (λ rt. r.available rt.provider_id) pinned)

last_stages : ResolveRequest → List Route → Result (List Route)
last_stages req avail =
    stage (req.quality_tier != "") no_route (λ rt. rt.quality_tier == req.quality_tier) avail
    >>= λ of_tier.
        stage (req.required_capability != "") unsupported_capability (capability_matches req)
          of_tier
        >>= stage (wants_preview req) unsupported_capability
            (λ rt. rt.preview_capability == req.required_preview_capability)

-- The stages that look at the request alone.
request_stages : Resolver → ResolveRequest → List Route → Result (List Route)
request_stages r req routes = non_empty no_route (keep_if (active_for req) routes) >>= λ active.
    (pin_provider r req active >>= avail_of r) >>= last_stages req

module _ (E : RouteError → Type 0) where
  non_empty_cases :
      (e : RouteError)
      → E e
      → (l : List Route)
      → ((non_empty e l ≡ ok l) × (l ≢ []))
        ⊎ ((e' : RouteError) × (non_empty e l ≡ err e') × E e' × (l ≡ []))
  non_empty_cases e x [] = inr (e, refl, x, refl)
  non_empty_cases e x (rt ∷ l) = inl (refl, λ q. cc)

  non_empty-Selects :
      (e : RouteError)
      → E e
      → (p : Route → Bool) (rts : List Route) → Selects E p rts (non_empty e (keep_if p rts))
  non_empty-Selects e x p rts = non_empty_cases e x (keep_if p rts)

  stage-Selects :
      (wanted : Bool) (e : RouteError)
      → E e
      → (p : Route → Bool) (rts : List Route) → rts ≢ []
      → Selects E (λ rt. not wanted || p rt) rts (stage wanted e p rts)
  unfolding stage
  stage-Selects true e x p rts h = non_empty-Selects e x p rts
  stage-Selects false e x p rts h =
      let all : keep_if (λ rt. true) rts ≡ rts = keep_if_none (λ rt. true) rts (λ rt. refl) in
      inl (rw all, λ q. h (sym all ∙ q))

  -- One selection after another selects by both tests.
  bind-Selects :
      (p q : Route → Bool) (rts : List Route) (m : Result (List Route))
      (f : List Route → Result (List Route))
      → Selects E p rts m
      → ((l : List Route) → l ≢ [] → Selects E q l (f l))
      → Selects E (λ rt. p rt && q rt) rts (m >>= f)
  bind-Selects p q rts m f (inl (e, full)) next =
      rw (e, ← keep_if-keep_if p q rts) (next (keep_if p rts) full)
  bind-Selects p q rts m f (inr (x, e, k, none_left)) next =
      rw (e, ← keep_if-keep_if p q rts, none_left) (inr (x, refl, k, unfold keep_if in refl))

  Selects-cong :
      (p q : Route → Bool) (rts : List Route) (m : Result (List Route))
      → ((rt : Route) → p rt ≡ q rt)
      → Selects E p rts m
      → Selects E q rts m
  Selects-cong p q rts m h s = rw (← keep_if_cong p q rts h) s

  -- The pin and the availability filter, which read the same map.
  pin-Selects :
      (r : Resolver) (req : ResolveRequest) (rts : List Route)
      → rts ≢ []
      → E no_route
      → E requested_provider_unavailable
      → E provider_unavailable_for_route
      → Selects E
          (λ rt. pinned_to req rt && r.available rt.provider_id)
          rts
          (pin_provider r req rts >>= avail_of r)
  unfolding pin_provider avail_of
  pin-Selects r req rts h x y z = elim (Bool-cases (req.provider_id != "")) [
    | inl wanted ↦ elim (Bool-cases (r.available req.provider_id)) [
      | inl there ↦
          rw (wanted, there)
            (bind-Selects (λ rt. rt.provider_id == req.provider_id)
              (λ rt. r.available rt.provider_id) rts _ (avail_of r)
              (non_empty-Selects no_route x (λ rt. rt.provider_id == req.provider_id) rts)
              (λ l full.
                non_empty-Selects provider_unavailable_for_route z
                  (λ rt. r.available rt.provider_id) l))
      | inr away ↦
          rw (wanted, away)
            (inr (
              requested_provider_unavailable,
              refl,
              y,
              keep_if_all_fail _ rts
                  (λ rt. ground (arith, away, eq_iff rt.provider_id req.provider_id)),
            ))
    ]
    | inr free ↦
        rw free (
          non_empty-Selects provider_unavailable_for_route z (λ rt. r.available rt.provider_id) rts)
  ]

  last_stages-Selects :
      (req : ResolveRequest) (rts : List Route)
      → rts ≢ []
      → E no_route
      → E unsupported_capability
      → Selects E
          (λ rt.
            (not (req.quality_tier != "") || rt.quality_tier == req.quality_tier)
            && ((not (req.required_capability != "") || capability_matches req rt)
                && (not (wants_preview req)
                    || rt.preview_capability == req.required_preview_capability)))
          rts
          (last_stages req rts)
  unfolding last_stages
  last_stages-Selects req rts h x y =
      bind-Selects _ _ rts _ _ (stage-Selects (req.quality_tier != "") no_route x _ rts h)
        (λ l full.
          bind-Selects _ _ l _ _
            (stage-Selects (req.required_capability != "") unsupported_capability y _ l full)
            (λ l' full'. stage-Selects (wants_preview req) unsupported_capability y _ l' full'))

  request_stages-Selects :
      (r : Resolver) (req : ResolveRequest) (routes : List Route)
      → E no_route
      → E requested_provider_unavailable
      → E provider_unavailable_for_route
      → E unsupported_capability
      → Selects E (serves_request r req) routes (request_stages r req routes)
  unfolding request_stages
  request_stages-Selects r req routes x y z u =
      Selects-cong _ (serves_request r req) routes _ (λ rt. ground arith)
        (bind-Selects (active_for req) _ routes _ _
          (non_empty-Selects no_route x (active_for req) routes)
          (λ l full.
            bind-Selects _ _ l _ (last_stages req) (pin-Selects r req l full x y z)
              (λ l' full'. last_stages-Selects req l' full' x u)))

-- `candidates` runs the request's stages, and the provider check last.
candidates_lem :
    (r : Resolver) (req : ResolveRequest) (routes : List Route)
    → r.source req.operation_type ≡ ok routes
    → candidates r req ≡ (
        request_stages r req routes
        >>= stage
            (not (is_empty r.capabilities))
            route_provider_capability_mismatch
            (provider_backs r))
unfolding candidates request_stages last_stages avail_of
candidates_lem r req routes h = rw h (simp (← >>=_assoc))

abbrev AnyError : RouteError → Type 0
AnyError e = Unit

-- The provider check, as a test that every route passes where no index is wired.
abbrev backed : Resolver → Route → Bool
backed r rt = not (not (is_empty r.capabilities)) || provider_backs r rt

check_providers : Resolver → List Route → Result (List Route)
check_providers r =
    stage (not (is_empty r.capabilities)) route_provider_capability_mismatch (provider_backs r)

forget_kind :
    (E : RouteError → Type 0) (p : Route → Bool) (rts : List Route) (m : Result (List Route))
    → Selects E p rts m
    → ((m ≡ ok (keep_if p rts)) × (keep_if p rts ≢ []))
      ⊎ ((e : RouteError) × (m ≡ err e) × (keep_if p rts ≡ []))
forget_kind E p rts m (inl h) = inl h
forget_kind E p rts m (inr (e, x, k, none_left)) = inr (e, x, none_left)

-- Given the routes that the source lists, `candidates` returns exactly the eligible ones, in source
-- order, and is refused exactly if none is eligible.
pub candidates-eligible :
    (r : Resolver) (req : ResolveRequest) (routes : List Route)
    → r.source req.operation_type ≡ ok routes
    → ((candidates r req ≡ ok (keep_if (eligible r req) routes))
        × (keep_if (eligible r req) routes ≢ []))
      ⊎ ((e : RouteError) × (candidates r req ≡ err e) × (keep_if (eligible r req) routes ≡ []))
unfolding check_providers
candidates-eligible r req routes h = rw (candidates_lem r req routes h) (
    forget_kind AnyError (eligible r req) routes (request_stages r req routes >>= check_providers r)
      (bind-Selects AnyError (serves_request r req) (backed r) routes (request_stages r req routes)
        (check_providers r) (request_stages-Selects AnyError r req routes tt tt tt tt)
        (λ l full.
          stage-Selects AnyError (not (is_empty r.capabilities)) route_provider_capability_mismatch
            tt (provider_backs r) l full)))

NotMismatch : RouteError → Type 0
NotMismatch e = e ≢ route_provider_capability_mismatch

stage_refuses :
    (wanted : Bool) (p : Route → Bool) (l : List Route)
    → l ≢ []
    → keep_if (λ rt. not wanted || p rt) l ≡ []
    → stage wanted route_provider_capability_mismatch p l ≡ err route_provider_capability_mismatch
unfolding stage
stage_refuses true p l full e = rw e
stage_refuses false p l full e = absurd (full (sym (keep_if_none (λ rt. true) l (λ rt. refl)) ∙ e))

check_providers_mismatch :
    (r : Resolver) (l : List Route)
    → l ≢ []
    → (check_providers r l ≡ err route_provider_capability_mismatch) ↔ (keep_if (backed r) l ≡ [])
unfolding check_providers
check_providers_mismatch r l full = (forward, backward)
  where
    selects : Selects AnyError (backed r) l (check_providers r l)
    selects =
        stage-Selects AnyError (not (is_empty r.capabilities)) route_provider_capability_mismatch tt
          (provider_backs r) l full

    forward :
        check_providers r l ≡ err route_provider_capability_mismatch → keep_if (backed r) l ≡ []
    forward e = elim selects [ inl (o, _) ↦ cc | inr (_, _, _, none_left) ↦ none_left ]

    backward :
        keep_if (backed r) l ≡ [] → check_providers r l ≡ err route_provider_capability_mismatch
    backward e = stage_refuses (not (is_empty r.capabilities)) (provider_backs r) l full e

-- The mismatch error means that routes serve the request, but no provider of one backs the capability
-- that its route claims; no other request gets it.
pub candidates_mismatch :
    (r : Resolver) (req : ResolveRequest) (routes : List Route)
    → r.source req.operation_type ≡ ok routes
    → (candidates r req ≡ err route_provider_capability_mismatch)
      ↔ ((keep_if (serves_request r req) routes ≢ []) × (keep_if (eligible r req) routes ≡ []))
unfolding NotMismatch check_providers
candidates_mismatch r req routes h =
    rw (candidates_lem r req routes h, ← keep_if-keep_if (serves_request r req) (backed r) routes)
      (go (request_stages r req routes)
        (request_stages-Selects NotMismatch r req routes (λ q. cc) (λ q. cc) (λ q. cc) (λ q. cc)))
  where
    go :
        (m : Result (List Route))
        → Selects NotMismatch (serves_request r req) routes m
        → ((m >>= check_providers r) ≡ err route_provider_capability_mismatch) ↔ (
            (keep_if (serves_request r req) routes ≢ [])
            × (keep_if (backed r) (keep_if (serves_request r req) routes) ≡ []))
    go m (inl (e, full)) =
        let (f, b) = check_providers_mismatch r (keep_if (serves_request r req) routes) full in
        rw e ((λ x. (full, f x)), (λ x. b x.1))
    go m (inr (e, x, k, none_left)) = rw x ((λ q. absurd (k (cc))), (λ q. absurd (q.0 none_left)))
