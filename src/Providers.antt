-- ===== src/Providers.antt =====
-- internal/providers/capability.go and the capability types of internal/providers/provider.go.
-- A capability is the string the database and the adapters carry; a string that is none of the five
-- constants is kept as it is, as the Go type `Capability` does.
pub mod Hierarchy
mod Tests
use dreamchat_image_platform.Common.{
  String, Bool, true, false, not, ◌&&◌, ◌||◌, List, [], ◌∷◌, ◌==◌, if◌then◌else◌, any_of,
}

abbrev pub draft_only : String
draft_only = "draft_only"

abbrev pub scene_capable : String
scene_capable = "scene_capable"

abbrev pub identity_capable : String
identity_capable = "identity_capable"

abbrev pub pack_capable : String
pack_capable = "pack_capable"

abbrev pub production_capable : String
production_capable = "production_capable"

-- The two fields that routing reads. The zero value is what a missing key of the index gives.
pub record ProviderCapabilities : Type 0 where
  pub capabilities : List String
  pub synthetic : Bool

abbrev pub no_capabilities : ProviderCapabilities
no_capabilities = record { capabilities = []; synthetic = false }

-- `capabilityImplications[have][need]`; a missing key is false.
unfoldable pub implications : String → String → Bool
implications have need =
    if have == production_capable
    then need == production_capable || need == pack_capable || need == identity_capable
    else if have == pack_capable
    then need == pack_capable || need == identity_capable
    else if have == identity_capable
    then need == identity_capable
    else if have == scene_capable
    then need == scene_capable
    else if have == draft_only
    then need == draft_only
    else false

unfoldable pub capability_satisfies : String → String → Bool
unfolding implications
capability_satisfies have need = if have == need then true else implications have need

unfoldable pub capabilities_satisfy : List String → String → Bool
capabilities_satisfy have need = any_of (λ h. capability_satisfies h need) have

unfoldable pub is_identity_axis_capability : String → Bool
unfolding capability_satisfies
is_identity_axis_capability need = capability_satisfies production_capable need

unfoldable pub provider_satisfies_route : ProviderCapabilities → String → Bool → Bool
provider_satisfies_route caps need allow_synthetic =
    if caps.synthetic && not allow_synthetic
    then false
    else capabilities_satisfy caps.capabilities need

-- The index from a provider's id to what its adapter advertises, in the order of iteration.
abbrev pub CapabilityIndex : Type 0
CapabilityIndex = List (String × ProviderCapabilities)

unfoldable pub capabilities_of : CapabilityIndex → String → ProviderCapabilities
capabilities_of [] id = no_capabilities
capabilities_of ((k, caps) ∷ rest) id = if k == id then caps else capabilities_of rest id

pub record IdentityReadiness : Type 0 where
  pub real_identity_capable : Bool
  pub synthetic_identity_capable : Bool
  pub real_providers : List String
  pub synthetic_providers : List String

-- One round of the loop of `AssessIdentityReadiness`.
assess_provider : String → ProviderCapabilities → IdentityReadiness → IdentityReadiness
assess_provider id caps r =
    if not (capabilities_satisfy caps.capabilities identity_capable)
    then r
    else if caps.synthetic
    then record r {
      synthetic_identity_capable = true;
      synthetic_providers = id ∷ r.synthetic_providers;
    }
    else record r { real_identity_capable = true; real_providers = id ∷ r.real_providers }

-- Go iterates over the map in no fixed order; the lists are in the order of the index.
unfoldable pub assess_identity_readiness : CapabilityIndex → IdentityReadiness
unfolding assess_provider
assess_identity_readiness [] = record {
  real_identity_capable = false;
  synthetic_identity_capable = false;
  real_providers = [];
  synthetic_providers = [];
}
assess_identity_readiness ((id, caps) ∷ rest) =
    assess_provider id caps (assess_identity_readiness rest)
