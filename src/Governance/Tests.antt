-- ===== src/Governance/Tests.antt =====
-- A concrete envelope for internal/governance/, and the theorems on it.
use dreamchat_image_platform.Common.{String, ◌≡◌, refl, ◌↔◌, true, [], ◌∷◌}
use dreamchat_image_platform.Governance.{
  Envelope, verified, blocked, stale, RealVerifier, stub_signature_verifier, verify,
  enforce_with_stub_error,
}
use dreamchat_image_platform.Governance.Gate.{verify_iff, IsAcceptable}

abbrev verifier : RealVerifier
verifier = record { sig = stub_signature_verifier; max_age = 300000000000; issuers = "core" ∷ [] }

abbrev envelope : Envelope
envelope = record {
  schema_version = "1";
  classification_id = "c";
  visibility = "public";
  content_class = "opaque";
  authorized_by = "core";
  issued_at = 1000000000000;
  signature = "s";
}

-- An old envelope is stale.
old_is_stale : verify verifier 2000000000000 envelope ≡ blocked stale
unfolding verify
old_is_stale = refl

-- Enforcing on the stub is refused in the live environment.
stub_refused : enforce_with_stub_error true "enforce" stub_signature_verifier ≡ true
unfolding enforce_with_stub_error
stub_refused = refl

abbrev enforcing : String
enforcing = "enforce"

verify_iff_example :
    (verify verifier 1000000000001 envelope ≡ verified)
    ↔ IsAcceptable verifier 1000000000001 envelope
verify_iff_example = verify_iff verifier 1000000000001 envelope
