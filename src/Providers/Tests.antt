-- ===== src/Providers/Tests.antt =====
-- Concrete capabilities of internal/providers/capability.go, and the theorems on them.
use dreamchat_image_platform.Common.{◌≡◌, refl, ◌↔◌, true, false, [], ◌∷◌}
use dreamchat_image_platform.Providers.{
  ProviderCapabilities, capability_satisfies, capabilities_satisfy, provider_satisfies_route,
  CapabilityIndex,
}
use dreamchat_image_platform.Providers.Hierarchy.{Implies, capability_satisfies_iff}

abbrev fal : ProviderCapabilities
fal = record { capabilities = "scene_capable" ∷ "pack_capable" ∷ []; synthetic = false }

abbrev index : CapabilityIndex
index =
    ("mock", record { capabilities = "production_capable" ∷ []; synthetic = true })
    ∷ ("fal", fal)
    ∷ []

capability_satisfies_iff_example :
    (capability_satisfies "pack_capable" "identity_capable" ≡ true)
    ↔ Implies "pack_capable" "identity_capable"
capability_satisfies_iff_example = capability_satisfies_iff "pack_capable" "identity_capable"

pack_over_identity : capability_satisfies "pack_capable" "identity_capable" ≡ true
unfolding capability_satisfies
pack_over_identity = refl

fal_serves_packs : provider_satisfies_route fal "pack_capable" false ≡ true
unfolding provider_satisfies_route capabilities_satisfy capability_satisfies
fal_serves_packs = refl
