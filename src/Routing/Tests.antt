-- ===== src/Routing/Tests.antt =====
-- Concrete inputs for the routing of internal/providers/routing/: a synthetic provider and a real
-- one, and the theorems on them.
use dreamchat_image_platform.Common.{
  ◌≡◌, refl, ◌≢◌, ◌⊎◌, inl, true, false, some, List, [], ◌∷◌, map, keep_if,
}
use mathlib.Core.List.{Perm}
use dreamchat_image_platform.Common.Int.{pos, negsuc}
use dreamchat_image_platform.Common.Order.{IsStrictWeak}
use dreamchat_image_platform.Common.Sort.{Ordered, scan_best, stable_sort}
use dreamchat_image_platform.Providers.{
  is_identity_axis_capability, CapabilityIndex, capabilities_of, provider_satisfies_route,
  capability_satisfies, capabilities_satisfy,
}
use dreamchat_image_platform.Routing.{
  quality_tier_rank, RouteError, route_provider_capability_mismatch, ok, err, ◌>>=◌, ResolveRequest,
  Route, Resolver, resolved_route_from, ranks_before, candidates, resolve, resolve_chain,
}
use dreamchat_image_platform.Routing.Ranking.{
  documented_order, ranks_before_lem, ranks_before-IsStrictWeak,
}
use dreamchat_image_platform.Routing.Filters.{eligible, candidates-eligible}
use dreamchat_image_platform.Routing.Chain.{
  primary, IsBest, resolve-resolve_chain, resolve_chain_sorted, resolve-IsBest, candidates-real,
}

abbrev mock_route : Route
mock_route = record {
  route_id = "route_mock";
  provider_id = "mock";
  model_id = "model_mock";
  operation_type = "generate";
  required_capability = "identity_capable";
  preview_capability = "no_preview";
  quality_tier = "standard";
  latency_tier = "fast";
  priority = pos 100;
  enabled = true;
  model_active = true;
  price = some (pos 1000);
}

abbrev real_route : Route
real_route = record mock_route {
  route_id = "route_real";
  provider_id = "fal";
  model_id = "model_real";
  quality_tier = "high";
  priority = negsuc 4;
  price = some (pos 40000);
}

abbrev index : CapabilityIndex
index =
    ("mock", record { capabilities = "production_capable" ∷ []; synthetic = true })
    ∷ ("fal", record { capabilities = "scene_capable" ∷ "pack_capable" ∷ []; synthetic = false })
    ∷ []

abbrev listed : List Route
listed = mock_route ∷ real_route ∷ []

abbrev resolver : Resolver
resolver = record {
  source = λ op. ok listed;
  available = λ id. true;
  capabilities = index;
  allow_synthetic_identity = false;
}

abbrev mock_only : Resolver
mock_only = record resolver { source = λ op. ok (mock_route ∷ []) }

abbrev request : ResolveRequest
request = record {
  tenant_id = "tenant";
  operation_type = "generate";
  quality_tier = "";
  latency_tier = "";
  required_capability = "identity_capable";
  required_preview_capability = "";
  provider_preference = "";
  provider_id = "";
  intent = "commit";
}

-- The synthetic provider is passed over.
resolves_real : resolve resolver request ≡ ok (resolved_route_from real_route)
unfolding resolve candidates keep_if capability_satisfies provider_satisfies_route capabilities_of
    capabilities_satisfy scan_best
resolves_real = refl

-- A draft prefers the lower price.
draft_prefers_mock : ranks_before mock_route real_route (record request { intent = "draft" }) ≡ true
unfolding ranks_before
draft_prefers_mock = refl

resolve-IsBest_example :
    ((rt : Route) × (resolve resolver request ≡ ok (resolved_route_from rt))
      × IsBest resolver request listed rt)
    ⊎ ((e : RouteError) × (resolve resolver request ≡ err e)
        × (keep_if (eligible resolver request) listed ≡ []))
resolve-IsBest_example = resolve-IsBest resolver request listed refl

resolve-resolve_chain_example :
    resolve resolver request ≡ (resolve_chain resolver request >>= primary)
resolve-resolve_chain_example = resolve-resolve_chain resolver request

chain_of_real : resolve_chain resolver request ≡ ok (resolved_route_from real_route ∷ [])
unfolding resolve_chain candidates keep_if capability_satisfies provider_satisfies_route
    capabilities_of capabilities_satisfy stable_sort
chain_of_real = refl

resolve_chain_sorted_example :
    (order : List Route) × ((resolved_route_from real_route ∷ []) ≡ map resolved_route_from order)
    × Perm order (keep_if (eligible resolver request) listed)
    × Ordered (λ a b. ranks_before a b request) order
resolve_chain_sorted_example =
    resolve_chain_sorted resolver request listed (resolved_route_from real_route ∷ []) refl
      chain_of_real

candidates-eligible_example :
    ((candidates resolver request ≡ ok (keep_if (eligible resolver request) listed))
      × (keep_if (eligible resolver request) listed ≢ []))
    ⊎ ((e : RouteError) × (candidates resolver request ≡ err e)
        × (keep_if (eligible resolver request) listed ≡ []))
candidates-eligible_example = candidates-eligible resolver request listed refl

-- The mismatch is what a synthetic provider alone gives.
mock_only_mismatch : candidates mock_only request ≡ err route_provider_capability_mismatch
unfolding candidates keep_if capability_satisfies provider_satisfies_route capabilities_of
    capabilities_satisfy
mock_only_mismatch = refl

index_wired : resolver.capabilities ≢ []
index_wired = λ e. cc

claims_identity : real_route.required_capability ≢ ""
claims_identity = λ e. cc

passes_real : candidates resolver request ≡ ok (real_route ∷ [])
unfolding candidates keep_if capability_satisfies provider_satisfies_route capabilities_of
    capabilities_satisfy
passes_real = refl

candidates-real_example : (capabilities_of index "fal").synthetic ≡ false
candidates-real_example =
    candidates-real resolver request listed (real_route ∷ []) refl index_wired refl passes_real
      real_route (inl refl) claims_identity

ranks_before_lem_example :
    ranks_before mock_route real_route request ≡ documented_order request mock_route real_route
ranks_before_lem_example = ranks_before_lem mock_route real_route request

ranks_before-IsStrictWeak_example : IsStrictWeak (λ a b. ranks_before a b request)
ranks_before-IsStrictWeak_example = ranks_before-IsStrictWeak request

not_before_itself : ranks_before real_route real_route request ≡ false
unfolding ranks_before quality_tier_rank is_identity_axis_capability
not_before_itself = refl
