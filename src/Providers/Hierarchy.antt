-- ===== src/Providers/Hierarchy.antt =====
-- The capability hierarchy of internal/providers/capability.go is a preorder, and synthetic
-- providers are kept out of every axis unless they are allowed.
use dreamchat_image_platform.Common.{
  String, ◌≡◌, refl, ◌↔◌, ◌⊎◌, inl, inr, Bool, true, false, List, [], ◌∷◌, eq_iff, any_of, arith,
  not, ◌&&◌, if◌then◌else◌,
}
use dreamchat_image_platform.Providers.{
  ProviderCapabilities, draft_only, scene_capable, identity_capable, pack_capable,
  production_capable, capability_satisfies, capabilities_satisfy, provider_satisfies_route,
  CapabilityIndex, assess_identity_readiness, assess_provider,
}

-- The order of the specification: a capability implies itself, production implies pack, and both
-- imply identity.
abbrev pub Implies : String → String → Type 0
Implies have need =
    (have ≡ need)
    ⊎ ((have ≡ production_capable) × (need ≡ pack_capable))
    ⊎ ((have ≡ production_capable) × (need ≡ identity_capable))
    ⊎ ((have ≡ pack_capable) × (need ≡ identity_capable))

pub capability_satisfies→Implies :
    (have need : String) → capability_satisfies have need ≡ true → Implies have need
unfolding capability_satisfies
capability_satisfies→Implies have need h = ground (
  arith,
  eq_iff have need,
  eq_iff have production_capable,
  eq_iff have pack_capable,
  eq_iff have identity_capable,
  eq_iff have scene_capable,
  eq_iff have draft_only,
  eq_iff need production_capable,
  eq_iff need pack_capable,
  eq_iff need identity_capable,
  eq_iff need scene_capable,
  eq_iff need draft_only,
)

pub Implies→capability_satisfies :
    (have need : String) → Implies have need → capability_satisfies have need ≡ true
unfolding capability_satisfies
Implies→capability_satisfies have need (inl e) = rw ((eq_iff have need).1 e)
Implies→capability_satisfies have need (inr (inl (p, q))) = rw (p, q)
Implies→capability_satisfies have need (inr (inr (inl (p, q)))) = rw (p, q)
Implies→capability_satisfies have need (inr (inr (inr (p, q)))) = rw (p, q)

pub Implies-trans : (a b c : String) → Implies a b → Implies b c → Implies a c
Implies-trans a b c h k = ground (
  arith,
  eq_iff production_capable pack_capable,
  eq_iff production_capable identity_capable,
  eq_iff pack_capable identity_capable,
)

-- A capability satisfies a requirement exactly if it is the same or the hierarchy production > pack >
-- identity puts it above; the scene and draft axes, and every unknown string, satisfy themselves
-- alone.
pub capability_satisfies_iff :
    (have need : String) → (capability_satisfies have need ≡ true) ↔ Implies have need
capability_satisfies_iff have need =
    (capability_satisfies→Implies have need, Implies→capability_satisfies have need)

capability_satisfies_trans :
    (a b c : String)
    → capability_satisfies a b ≡ true
    → capability_satisfies b c ≡ true
    → capability_satisfies a c ≡ true
capability_satisfies_trans a b c h k =
    Implies→capability_satisfies a c (
      Implies-trans a b c (capability_satisfies→Implies a b h) (capability_satisfies→Implies b c k))

capabilities_satisfy_mono :
    (have : List String) (need weaker : String)
    → capability_satisfies need weaker ≡ true
    → capabilities_satisfy have need ≡ true
    → capabilities_satisfy have weaker ≡ true
unfolding capabilities_satisfy
capabilities_satisfy_mono [] need weaker w h = h
capabilities_satisfy_mono (c ∷ have) need weaker w h =
    ground
      (arith, capability_satisfies_trans c need weaker, capabilities_satisfy_mono have need weaker)

-- A provider that may serve a route of some capability may serve every route of a capability that
-- this one satisfies, under the same policy on synthetic providers.
pub provider_satisfies_route_mono :
    (caps : ProviderCapabilities) (need weaker : String) (allow : Bool)
    → capability_satisfies need weaker ≡ true
    → provider_satisfies_route caps need allow ≡ true
    → provider_satisfies_route caps weaker allow ≡ true
unfolding provider_satisfies_route
provider_satisfies_route_mono caps need weaker allow w h =
    ground (arith, capabilities_satisfy_mono caps.capabilities need weaker w)

-- While synthetic providers are not allowed, no synthetic provider satisfies any route capability.
pub provider_satisfies_route-real :
    (caps : ProviderCapabilities) (need : String)
    → provider_satisfies_route caps need false ≡ true
    → caps.synthetic ≡ false
unfolding provider_satisfies_route
provider_satisfies_route-real caps need h = ground arith

abbrev pub serves_identity : Bool → String × ProviderCapabilities → Bool
serves_identity synthetic entry =
    capabilities_satisfy entry.1.capabilities identity_capable
    && (if synthetic then entry.1.synthetic else not entry.1.synthetic)

-- Readiness reports a real provider exactly if a registered non-synthetic one satisfies
-- identity_capable, and a synthetic provider exactly if a registered synthetic one does.
pub assess_identity_readiness_lem :
    (index : CapabilityIndex)
    → ((assess_identity_readiness index).real_identity_capable
        ≡ any_of (serves_identity false) index)
      × ((assess_identity_readiness index).synthetic_identity_capable
          ≡ any_of (serves_identity true) index)
unfolding assess_identity_readiness assess_provider
assess_identity_readiness_lem [] = (refl, refl)
assess_identity_readiness_lem ((id, caps) ∷ rest) =
    ground (arith, assess_identity_readiness_lem rest)
