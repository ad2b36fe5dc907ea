-- ===== src/Governance.antt =====
-- internal/governance/governance.go and signature.go: the gate on the media-eligibility envelope.
--
-- An instant is a number of nanoseconds since Go's zero time, and a mode the string that the
-- configuration holds. The signature verifier is a parameter, of which the stub is one.
pub mod Gate
mod Tests
use dreamchat_image_platform.Common.{
  ℕ, ◌+◌, ◌-◌, String, Bool, true, false, not, ◌&&◌, ◌||◌, Option, none, some, List, [], ◌∷◌, ◌==◌,
  ltb, nat_eq, if◌then◌else◌, any_of,
}

pub data BlockReason : Type 0 where
  missing_field missing_schema_version stale unknown_issuer bad_signature : BlockReason

pub record Envelope : Type 0 where
  pub schema_version : String
  pub classification_id : String
  pub visibility : String
  pub content_class : String
  pub authorized_by : String
  pub issued_at : ℕ
  pub signature : String

pub data Verdict : Type 0 where
  verified : Verdict
  blocked : BlockReason → Verdict

-- `none` is an error of the verifier.
pub record SignatureVerifier : Type 0 where
  pub is_stub : Bool
  pub verify_signature : Envelope → Option Bool

abbrev pub stub_signature_verifier : SignatureVerifier
stub_signature_verifier = record { is_stub = true; verify_signature = λ env. some true }

pub record RealVerifier : Type 0 where
  pub sig : SignatureVerifier
  pub max_age : ℕ
  pub issuers : List String

-- Two minutes.
abbrev pub clock_skew : ℕ
clock_skew = 120000000000

abbrev pub is_stale : RealVerifier → ℕ → Envelope → Bool
is_stale v now env = ltb env.issued_at (now - v.max_age) || ltb (now + clock_skew) env.issued_at

abbrev pub is_signed : RealVerifier → Envelope → Bool
is_signed v env = elim (v.sig.verify_signature env) [ none ↦ false | some good ↦ good ]

abbrev pub is_known_issuer : RealVerifier → Envelope → Bool
is_known_issuer v env = any_of (λ i. i == env.authorized_by) v.issuers

unfoldable pub verify : RealVerifier → ℕ → Envelope → Verdict
verify v now env =
    if env.schema_version == ""
    then blocked missing_schema_version
    else if env.classification_id == ""
        || (env.visibility == ""
            || (env.content_class == ""
                || (env.authorized_by == "" || (env.signature == "" || nat_eq env.issued_at 0))))
    then blocked missing_field
    else if is_stale v now env
    then blocked stale
    else if not (is_known_issuer v env)
    then blocked unknown_issuer
    else if not (is_signed v env)
    then blocked bad_signature
    else verified

pub data EventType : Type 0 where
  eligibility_verified eligibility_blocked : EventType

-- Decide: whether to proceed, and the audit event.
unfoldable pub decide_eligibility : String → Verdict → Bool × EventType
decide_eligibility mode verified = (true, eligibility_verified)
decide_eligibility mode (blocked r) =
    if mode == "enforce" then (false, eligibility_blocked) else (true, eligibility_blocked)

-- EnforceWithStubError: whether startup fails.
unfoldable pub enforce_with_stub_error : Bool → String → SignatureVerifier → Bool
enforce_with_stub_error live mode sig = live && (mode == "enforce" && sig.is_stub)
