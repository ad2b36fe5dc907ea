-- ===== src/Routing.antt =====
-- internal/providers/routing/routing.go: the choice of a provider route for a request.
--
-- A `map[string]bool` is a function, a unit price an integer in units of 10^-6 (the column is
-- NUMERIC(14, 6)), and the route source a function of the operation that may fail.
pub mod Ranking
pub mod Filters
pub mod Chain
pub mod Reconcile
mod Tests
use dreamchat_image_platform.Common.{
  ℕ, String, Bool, true, false, not, ◌&&◌, ◌||◌, Option, none, some, List, [], ◌∷◌, map, ◌==◌, ◌!=◌,
  ltb, nat_eq, if◌then◌else◌, is_empty, keep_if,
}
use dreamchat_image_platform.Common.Int.{ℤ, ltb_ℤ, eqb_ℤ}
use dreamchat_image_platform.Common.Sort.{stable_sort, scan_best}
use dreamchat_image_platform.Common.Texts.{text_lt}
use dreamchat_image_platform.Providers.{
  CapabilityIndex, capabilities_of, capability_satisfies, provider_satisfies_route,
  is_identity_axis_capability,
}

pub data RouteError : Type 0 where
  no_route unsupported_capability provider_unavailable_for_route : RouteError
  route_provider_capability_mismatch requested_provider_unavailable : RouteError
  source_error : String → RouteError
  -- `candidates[0]` of an empty slice
  index_out_of_range : RouteError

pub data Result {ℓ} (A : Type ℓ) : Type ℓ where
  ok : A → Result A
  err : RouteError → Result A

infixl 5 ◌>>=◌
abbrev pub ◌>>=◌ {ℓ κ} : {A : Type ℓ} {B : Type κ} → Result A → (A → Result B) → Result B
ok a >>= f = f a
err e >>= f = err e

pub record ResolveRequest : Type 0 where
  pub tenant_id : String
  pub operation_type : String
  pub quality_tier : String
  pub latency_tier : String
  pub required_capability : String
  pub required_preview_capability : String
  pub provider_preference : String
  pub provider_id : String
  pub intent : String

pub record ResolvedRoute : Type 0 where
  pub provider_id : String
  pub provider_route_id : String
  pub provider_model_id : String
  pub operation_type : String
  pub preview_capability : String
  pub quality_tier : String

pub record Route : Type 0 where
  pub route_id : String
  pub provider_id : String
  pub model_id : String
  pub operation_type : String
  pub required_capability : String
  pub preview_capability : String
  pub quality_tier : String
  pub latency_tier : String
  pub priority : ℤ  -- int32
  pub enabled : Bool
  pub model_active : Bool
  pub price : Option ℤ

pub record Resolver : Type 0 where
  pub source : String → Result (List Route)
  pub available : String → Bool
  pub capabilities : CapabilityIndex
  pub allow_synthetic_identity : Bool

unfoldable pub new_resolver : (String → Result (List Route)) → (String → Bool) → Resolver
new_resolver source available = record {
  source = source;
  available = available;
  capabilities = [];
  allow_synthetic_identity = false;
}

unfoldable pub with_provider_capabilities : Resolver → CapabilityIndex → Resolver
with_provider_capabilities r index = record r { capabilities = index }

unfoldable pub with_synthetic_identity_allowed : Resolver → Bool → Resolver
with_synthetic_identity_allowed r allow = record r { allow_synthetic_identity = allow }

unfoldable pub resolved_route_from : Route → ResolvedRoute
resolved_route_from rt = record {
  provider_id = rt.provider_id;
  provider_route_id = rt.route_id;
  provider_model_id = rt.model_id;
  operation_type = rt.operation_type;
  preview_capability = rt.preview_capability;
  quality_tier = rt.quality_tier;
}

unfoldable pub quality_tier_rank : String → ℕ
quality_tier_rank tier =
    if tier == "high" then 3 else if tier == "standard" then 2 else if tier == "draft" then 1 else 0

abbrev pub differ : Bool → Bool → Bool
differ a b = if a then not b else b

-- The `case "draft"` of `ranksBefore`; `none` falls through to the tie-break.
rank_by_price : Option ℤ → Option ℤ → Option Bool
rank_by_price none none = none
rank_by_price none (some q) = some false
rank_by_price (some p) none = some true
rank_by_price (some p) (some q) = if not (eqb_ℤ p q) then some (ltb_ℤ p q) else none

-- The `case "commit"`.
rank_by_quality : Route → Route → Option Bool
rank_by_quality a b =
    let a_rank = quality_tier_rank a.quality_tier in
    let b_rank = quality_tier_rank b.quality_tier in
    let a_ident = is_identity_axis_capability a.required_capability in
    let b_ident = is_identity_axis_capability b.required_capability in
    if not (nat_eq a_rank b_rank)
    then some (ltb b_rank a_rank)
    else if differ a_ident b_ident
    then some a_ident
    else none

-- The `switch req.Intent`.
rank_by_intent : Route → Route → ResolveRequest → Option Bool
unfolding rank_by_price rank_by_quality
rank_by_intent a b req =
    if req.intent == "draft"
    then rank_by_price a.price b.price
    else if req.intent == "commit"
    then rank_by_quality a b
    else none

tie_break : Route → Route → ResolveRequest → Bool
tie_break a b req =
    let a_match = a.latency_tier == req.latency_tier in
    let b_match = b.latency_tier == req.latency_tier in
    let a_pref = a.provider_id == req.provider_preference in
    let b_pref = b.provider_id == req.provider_preference in
    if req.latency_tier != "" && differ a_match b_match
    then a_match
    else if req.provider_preference != "" && differ a_pref b_pref
    then a_pref
    else if not (eqb_ℤ a.priority b.priority)
    then ltb_ℤ a.priority b.priority
    else if a.provider_id != b.provider_id
    then text_lt a.provider_id b.provider_id
    else if a.model_id != b.model_id
    then text_lt a.model_id b.model_id
    else text_lt a.route_id b.route_id

unfoldable pub ranks_before : Route → Route → ResolveRequest → Bool
unfolding rank_by_intent tie_break
ranks_before a b req = elim (rank_by_intent a b req) [
  | some first ↦ first
  | none ↦ tie_break a b req
]

-- `if len(filtered) == 0 { return nil, e }`.
abbrev pub non_empty : RouteError → List Route → Result (List Route)
non_empty e [] = err e
non_empty e (rt ∷ rts) = ok (rt ∷ rts)

-- The tests of the stages of `candidates`, in the order of the stages.
abbrev pub active_for : ResolveRequest → Route → Bool
active_for req rt = rt.enabled && rt.model_active && rt.operation_type == req.operation_type

abbrev pub capability_matches : ResolveRequest → Route → Bool
capability_matches req rt =
    if req.intent != ""
    then capability_satisfies rt.required_capability req.required_capability
    else rt.required_capability == req.required_capability

abbrev pub wants_preview : ResolveRequest → Bool
wants_preview req =
    req.required_preview_capability != "" && req.required_preview_capability != "no_preview"

abbrev pub provider_backs : Resolver → Route → Bool
provider_backs r rt =
    rt.required_capability == ""
    || provider_satisfies_route (capabilities_of r.capabilities rt.provider_id)
        rt.required_capability r.allow_synthetic_identity

-- Stage 1b, the requested provider.
pin_provider : Resolver → ResolveRequest → List Route → Result (List Route)
pin_provider r req active =
    if req.provider_id != ""
    then (if not (r.available req.provider_id)
        then err requested_provider_unavailable
        else non_empty no_route (keep_if (λ rt. rt.provider_id == req.provider_id) active))
    else ok active

-- Stages 3 to 6: a filter that applies where the request or the wiring asks for it.
stage : Bool → RouteError → (Route → Bool) → List Route → Result (List Route)
stage wanted e test rts = if wanted then non_empty e (keep_if test rts) else ok rts

unfoldable pub candidates : Resolver → ResolveRequest → Result (List Route)
unfolding pin_provider stage
candidates r req = do
  routes ← r.source req.operation_type
  active ← non_empty no_route (keep_if (active_for req) routes)
  pinned ← pin_provider r req active
  avail ←
      non_empty provider_unavailable_for_route (keep_if (λ rt. r.available rt.provider_id) pinned)
  of_tier ←
      stage (req.quality_tier != "") no_route (λ rt. rt.quality_tier == req.quality_tier) avail
  capable ←
      stage (req.required_capability != "") unsupported_capability (capability_matches req) of_tier
  previewing ←
      stage (wants_preview req) unsupported_capability
        (λ rt. rt.preview_capability == req.required_preview_capability) capable
  stage (not (is_empty r.capabilities)) route_provider_capability_mismatch (provider_backs r)
      previewing

best_of : ResolveRequest → List Route → Result ResolvedRoute
best_of req [] = err index_out_of_range
best_of req (rt ∷ rts) = ok (resolved_route_from (scan_best (λ a b. ranks_before a b req) rt rts))

unfoldable pub resolve : Resolver → ResolveRequest → Result ResolvedRoute
unfolding best_of
resolve r req = do survivors ← candidates r req; best_of req survivors

unfoldable pub resolve_chain : Resolver → ResolveRequest → Result (List ResolvedRoute)
resolve_chain r req = do
  survivors ← candidates r req
  ok (map resolved_route_from (stable_sort (λ a b. ranks_before a b req) survivors))
