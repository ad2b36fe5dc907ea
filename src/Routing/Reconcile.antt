-- ===== src/Routing/Reconcile.antt =====
-- internal/providers/routing/reconcile.go: the boot-time check of the configured routes, and its
-- agreement with what the resolver later refuses. (The structured logs are not modelled.)
use dreamchat_image_platform.Common.{
  ℕ, suc, ◌+◌, String, ◌≡◌, ◌≢◌, ◌↔◌, Bool, true, false, not, ◌&&◌, ◌||◌, List, [], ◌∷◌, ◌++◌, map,
  ◌==◌, if◌then◌else◌, is_empty, length, keep_if, eq_iff, arith,
}
use dreamchat_image_platform.Providers.{
  ProviderCapabilities, CapabilityIndex, IdentityReadiness, capabilities_of, capabilities_satisfy,
  provider_satisfies_route, assess_identity_readiness,
}
use dreamchat_image_platform.Routing.{Result, ok, ◌>>=◌, Route, Resolver, provider_backs}

pub data Reason : Type 0 where
  valid_route provider_not_registered provider_capability_mismatch : Reason
  synthetic_identity_disabled : Reason

pub record RouteDecision : Type 0 where
  pub route_id : String
  pub provider_id : String
  pub model_id : String
  pub required_capability : String
  pub provider_capabilities : List String
  pub valid : Bool
  pub reason : Reason

pub record ReconcileReport : Type 0 where
  pub decisions : List RouteDecision
  pub readiness : IdentityReadiness
  pub allow_synthetic_identity : Bool

-- The fields of a decision before the `switch`.
decision_with : Route → ProviderCapabilities → Bool → Reason → RouteDecision
decision_with rt caps valid reason = record {
  route_id = rt.route_id;
  provider_id = rt.provider_id;
  model_id = rt.model_id;
  required_capability = rt.required_capability;
  provider_capabilities = caps.capabilities;
  valid = valid;
  reason = reason;
}

-- One round of the loop of `Reconcile`.
pub decide_route : CapabilityIndex → Bool → Route → RouteDecision
unfolding decision_with
decide_route index allow rt =
    let caps = capabilities_of index rt.provider_id in
    if is_empty caps.capabilities
    then decision_with rt caps false provider_not_registered
    else if rt.required_capability == ""
        || provider_satisfies_route caps rt.required_capability allow
    then decision_with rt caps true valid_route
    else if caps.synthetic && capabilities_satisfy caps.capabilities rt.required_capability
    then decision_with rt caps false synthetic_identity_disabled
    else decision_with rt caps false provider_capability_mismatch

unfoldable pub reconcile : List Route → CapabilityIndex → Bool → ReconcileReport
unfolding decide_route
reconcile routes index allow = record {
  decisions = map (decide_route index allow) routes;
  readiness = assess_identity_readiness index;
  allow_synthetic_identity = allow;
}

count_invalid : List RouteDecision → ℕ
count_invalid [] = 0
count_invalid (d ∷ ds) = if not d.valid then suc (count_invalid ds) else count_invalid ds

unfoldable pub invalid_count : ReconcileReport → ℕ
unfolding count_invalid
invalid_count report = count_invalid report.decisions

unfoldable pub gather_routes : (String → Result (List Route)) → List String → Result (List Route)
gather_routes source [] = ok []
gather_routes source (op ∷ ops) = do
  routes ← source op
  rest ← gather_routes source ops
  ok (routes ++ rest)

unregistered_satisfies_none :
    (caps : ProviderCapabilities) (need : String) (allow : Bool)
    → is_empty caps.capabilities ≡ true
    → provider_satisfies_route caps need allow ≡ false
unregistered_satisfies_none caps need allow h = go caps.capabilities caps.synthetic h
  where
    go :
        (have : List String) (synthetic : Bool)
        → is_empty have ≡ true
        → provider_satisfies_route
            (record { capabilities = have; synthetic = synthetic })
            need
            allow
          ≡ false
    go [] synthetic e = unfold provider_satisfies_route capabilities_satisfy in (ground arith)
    go (c ∷ cs) synthetic e = cc

-- Reconciliation finds a route that claims a capability valid exactly if a resolver with the same
-- index and policy lets its provider back it, so what is logged at boot is what is refused later.
pub decide_route-provider_backs :
    (r : Resolver) (rt : Route)
    → rt.required_capability ≢ ""
    → (decide_route r.capabilities r.allow_synthetic_identity rt).valid ≡ provider_backs r rt
unfolding decide_route
decide_route-provider_backs r rt claims = ground (
  arith,
  eq_iff rt.required_capability "",
  unregistered_satisfies_none (capabilities_of r.capabilities rt.provider_id) rt.required_capability
      r.allow_synthetic_identity,
)

-- The reason `synthetic_identity_disabled` is given exactly if synthetic providers are not allowed
-- and the provider is a synthetic one that would back the route's claimed capability were they
-- allowed.
pub decide_route-synthetic :
    (index : CapabilityIndex) (allow : Bool) (rt : Route)
    → rt.required_capability ≢ ""
    → ((decide_route index allow rt).reason ≡ synthetic_identity_disabled) ↔ (
        (allow ≡ false)
        × ((capabilities_of index rt.provider_id).synthetic ≡ true)
        × (provider_satisfies_route
              (capabilities_of index rt.provider_id)
              rt.required_capability
              true
            ≡ true))
unfolding decide_route provider_satisfies_route
decide_route-synthetic index allow rt claims = (forward, backward)
  where
    forward :
        (decide_route index allow rt).reason ≡ synthetic_identity_disabled
        → (allow ≡ false)
          × ((capabilities_of index rt.provider_id).synthetic ≡ true)
          × (provider_satisfies_route
                (capabilities_of index rt.provider_id)
                rt.required_capability
                true
              ≡ true)
    forward h = ground (arith, eq_iff rt.required_capability "")

    backward :
        (allow ≡ false)
          × ((capabilities_of index rt.provider_id).synthetic ≡ true)
          × (provider_satisfies_route
                (capabilities_of index rt.provider_id)
                rt.required_capability
                true
              ≡ true)
        → (decide_route index allow rt).reason ≡ synthetic_identity_disabled
    backward h = ground (
      arith,
      eq_iff rt.required_capability "",
      unregistered_satisfies_none (capabilities_of index rt.provider_id) rt.required_capability
          true,
    )

-- The number of invalid routes is that of the decisions that are not valid, one for each route.
pub invalid_count-reconcile :
    (routes : List Route) (index : CapabilityIndex) (allow : Bool)
    → invalid_count (reconcile routes index allow)
        + length (keep_if (λ rt. (decide_route index allow rt).valid) routes)
      ≡ length routes
unfolding invalid_count reconcile keep_if
invalid_count-reconcile [] index allow = omega arith
invalid_count-reconcile (rt ∷ routes) index allow =
    ground (arith, invalid_count-reconcile routes index allow)
