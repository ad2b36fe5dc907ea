-- ===== src/Governance/Gate.antt =====
-- What the gate of internal/governance/governance.go lets through.
use dreamchat_image_platform.Common.{
  ℕ, ◌+◌, ◌-◌, ◌≤◌, String, ◌≡◌, refl, ◌≢◌, ◌↔◌, Bool, true, false, not, ◌||◌, ◌==◌, ltb, nat_eq,
  any_of, Occurs, List, [], ◌∷◌, Option, none, some, ◌*◌, if◌then◌else◌, arith, eq_iff,
}
use dreamchat_image_platform.Governance.{
  Envelope, Verdict, verified, blocked, missing_schema_version, missing_field, stale,
  unknown_issuer, bad_signature, RealVerifier, is_stale, is_signed, is_known_issuer, clock_skew,
  verify, decide_eligibility, eligibility_verified,
}

-- The guards of `Verify`, as tests.
gates :
    (a b c d e : Bool)
    → (if a
        then blocked missing_schema_version
        else if b
        then blocked missing_field
        else if c
        then blocked stale
        else if not d
        then blocked unknown_issuer
        else if not e
        then blocked bad_signature
        else verified)
      ≡ verified
    → (a ≡ false) × (b ≡ false) × (c ≡ false) × (d ≡ true) × (e ≡ true)
gates a b c d e h = ground arith

fresh_iff :
    (issued now age skew : ℕ)
    → (ltb issued (now - age) || ltb (now + skew) issued) ≡ false
    → (now ≤ issued + age) × (issued ≤ now + skew)
fresh_iff issued now age skew h = ground arith

fresh_back :
    (issued now age skew : ℕ)
    → now ≤ issued + age
    → issued ≤ now + skew
    → (ltb issued (now - age) || ltb (now + skew) issued) ≡ false
fresh_back issued now age skew h k = ground arith

given_iff :
    (a b c d e : String) (n : ℕ)
    → ((a == "" || (b == "" || (c == "" || (d == "" || (e == "" || nat_eq n 0))))) ≡ false)
      ↔ ((a ≢ "") × (b ≢ "") × (c ≢ "") × (d ≢ "") × (e ≢ "") × (n ≢ 0))
given_iff a b c d e n = (
  λ h. (
    λ q. ground (arith, eq_iff a ""),
    λ q. ground (arith, eq_iff b ""),
    λ q. ground (arith, eq_iff c ""),
    λ q. ground (arith, eq_iff d ""),
    λ q. ground (arith, eq_iff e ""),
    λ q. ground arith,
  ),
  λ (p, q, r, s, t, u).
      ground (arith, eq_iff a "", eq_iff b "", eq_iff c "", eq_iff d "", eq_iff e ""),
)

-- The test of the fields in `Verify`.
abbrev lacks : Envelope → Bool
lacks env =
    env.classification_id == ""
    || (env.visibility == ""
        || (env.content_class == ""
            || (env.authorized_by == "" || (env.signature == "" || nat_eq env.issued_at 0))))

given :
    (env : Envelope)
    → (lacks env ≡ false) ↔ (
        (env.classification_id ≢ "")
        × (env.visibility ≢ "")
        × (env.content_class ≢ "")
        × (env.authorized_by ≢ "")
        × (env.signature ≢ "")
        × (env.issued_at ≢ 0))
given env =
    given_iff env.classification_id env.visibility env.content_class env.authorized_by env.signature
      env.issued_at

listed_iff : (x : String) (l : List String) → (any_of (λ i. i == x) l ≡ true) ↔ Occurs x l
listed_iff x [] = (λ h. cc, λ m. elim m [ ])
listed_iff x (y ∷ l) =
    let (there, back) = listed_iff x l in
    (λ h. ground (arith, eq_iff y x), λ m. ground (arith, eq_iff y x))

signed_iff :
    (m : Option Bool) → (elim m [ none ↦ false | some good ↦ good ] ≡ true) ↔ (m ≡ some true)
signed_iff none = (λ h. cc, λ h. cc)
signed_iff (some good) = (λ h. rw h refl, λ h. cc)

-- What the gate asks of an envelope.
abbrev pub IsAcceptable : RealVerifier → ℕ → Envelope → Type 0
IsAcceptable v now env =
    (env.schema_version ≢ "")
    × ((env.classification_id ≢ "")
        × (env.visibility ≢ "")
        × (env.content_class ≢ "")
        × (env.authorized_by ≢ "")
        × (env.signature ≢ "")
        × (env.issued_at ≢ 0))
    × (now ≤ env.issued_at + v.max_age)
    × (env.issued_at ≤ now + 2 * 60 * 1000000000)
    × Occurs env.authorized_by v.issuers
    × (v.sig.verify_signature env ≡ some true)

-- An envelope is verified exactly if its schema version, classification id, visibility, content class,
-- issuer, signature and instant are all given, it is no older than the greatest age and no more than
-- two minutes in the future, its issuer is on the list, and the verifier answers, without an error, that
-- its signature is good.
pub verify_iff :
    (v : RealVerifier) (now : ℕ) (env : Envelope)
    → (verify v now env ≡ verified) ↔ IsAcceptable v now env
unfolding verify
verify_iff v now env = (forward, backward)
  where
    forward : verify v now env ≡ verified → IsAcceptable v now env
    forward h =
        let (a, b, c, d, e) =
          gates (env.schema_version == "") (lacks env) (is_stale v now env) (is_known_issuer v env)
            (is_signed v env) h in
        let (old, new) = fresh_iff env.issued_at now v.max_age clock_skew c in
        (
          λ q. ground (arith, a, eq_iff env.schema_version ""),
          (given env).0 b,
          old,
          new,
          (listed_iff env.authorized_by v.issuers).0 d,
          (signed_iff (v.sig.verify_signature env)).0 e,
        )

    backward : IsAcceptable v now env → verify v now env ≡ verified
    backward (s, f, old, new, k, g) =
        let named : (env.schema_version == "") ≡ false =
          ground (arith, eq_iff env.schema_version "") in
        let fresh : is_stale v now env ≡ false =
          fresh_back env.issued_at now v.max_age clock_skew old new in
        rw (
          verify,
          named,
          (given env).1 f,
          fresh,
          (listed_iff env.authorized_by v.issuers).1 k,
          (signed_iff (v.sig.verify_signature env)).1 g,
        )

-- A generation is stopped exactly if the mode is enforce and the envelope is not verified, and the
-- audit event tells the verdict in every mode.
pub decide_eligibility_lem :
    (mode : String) (r : Verdict)
    → (((decide_eligibility mode r).0 ≡ false) ↔ ((mode ≡ "enforce") × (r ≢ verified)))
      × (((decide_eligibility mode r).1 ≡ eligibility_verified) ↔ (r ≡ verified))
unfolding decide_eligibility
decide_eligibility_lem mode verified =
    ((λ h. cc, λ (e, n). absurd (n refl)), (λ h. refl, λ h. refl))
decide_eligibility_lem mode (blocked x) = (
  (
    λ h. (ground (arith, eq_iff mode "enforce"), λ q. cc),
    λ (e, n). ground (arith, eq_iff mode "enforce"),
  ),
  (λ h. ground arith, λ h. cc),
)
