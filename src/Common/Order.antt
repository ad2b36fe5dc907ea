-- ===== src/Common/Order.antt =====
-- Strict weak orders as Boolean tests, their lexicographic composition, and orders by a key: what
-- the platform's deterministic rankings are made of.
use mathlib.Core.Path.{◌≡◌, refl}
use mathlib.Core.Bool.{Bool, true, false, not, ◌&&◌}
use native.Mathlib.Omega.{arith}
use dreamchat_image_platform.Common.Tests.{ltb, if◌then◌else◌}

pub record IsStrictWeak {ℓ} {A : Type ℓ} (lt : A → A → Bool) : Type ℓ where
  pub asym : (a b : A) → lt a b ≡ true → lt b a ≡ false
  pub neg_trans : (a b c : A) → lt a b ≡ false → lt b c ≡ false → lt a c ≡ false

-- First by one order, then by another where the first does not decide.
abbrev pub lex {ℓ} : {A : Type ℓ} → (A → A → Bool) → (A → A → Bool) → A → A → Bool
lex first next a b = if first a b then true else if first b a then false else next a b

module _ {ℓ} {A : Type ℓ} where
  -- The order that a key gives.
  abbrev pub by_key {κ} : {K : Type κ} → (A → K) → (K → K → Bool) → A → A → Bool
  by_key key lt a b = lt (key a) (key b)

  pub by_key-IsStrictWeak {κ} :
      {K : Type κ} (key : A → K) (lt : K → K → Bool)
      → IsStrictWeak lt
      → IsStrictWeak (by_key key lt)
  by_key-IsStrictWeak key lt w = record {
    asym = λ a b. w.asym (key a) (key b);
    neg_trans = λ a b c. w.neg_trans (key a) (key b) (key c);
  }

  pub irreflexive : (lt : A → A → Bool) → IsStrictWeak lt → (a : A) → lt a a ≡ false
  irreflexive lt w a = ground (arith, w.asym a a)

  pub transitive :
      (lt : A → A → Bool)
      → IsStrictWeak lt
      → (a b c : A) → lt a b ≡ true
      → lt b c ≡ true
      → lt a c ≡ true
  transitive lt w a b c h k = ground (arith, w.asym b c k, w.neg_trans a c b)

  pub lex-IsStrictWeak :
      (first next : A → A → Bool)
      → IsStrictWeak first
      → IsStrictWeak next
      → IsStrictWeak (lex first next)
  lex-IsStrictWeak first next f n = record {
    asym = λ a b h. ground (arith, f.asym a b, n.asym a b);
    neg_trans = λ a b c h k. ground (
      arith,
      f.neg_trans a b c,
      f.neg_trans b c a,
      f.neg_trans c a b,
      f.neg_trans c b a,
      f.neg_trans b a c,
      f.neg_trans a c b,
      f.asym a b,
      f.asym b c,
      f.asym a c,
      n.neg_trans a b c,
    );
  }

  -- The order that decides nothing.
  pub never-IsStrictWeak : IsStrictWeak {A = A} (λ _ _. false)
  never-IsStrictWeak = record { asym = λ a b h. refl; neg_trans = λ a b c h k. refl }

pub ltb-IsStrictWeak : IsStrictWeak ltb
ltb-IsStrictWeak = record { asym = λ a b h. ground arith; neg_trans = λ a b c h k. ground arith }

-- What holds ranks before what does not.
abbrev pub true_first : Bool → Bool → Bool
true_first a b = a && not b

pub true_first-IsStrictWeak : IsStrictWeak true_first
true_first-IsStrictWeak = record {
  asym = λ a b h. ground arith;
  neg_trans = λ a b c h k. ground arith;
}

-- A test that agrees with a strict weak order is one.
pub IsStrictWeak-of_eq {ℓ} :
    {A : Type ℓ} (f g : A → A → Bool)
    → ((a b : A) → f a b ≡ g a b)
    → IsStrictWeak g
    → IsStrictWeak f
IsStrictWeak-of_eq f g e w = record {
  asym = λ a b h. ground (arith, e a b, e b a, w.asym a b);
  neg_trans = λ a b c h k. ground (arith, e a b, e b c, e a c, w.neg_trans a b c);
}

-- Where a composition decides neither way, its parts do not either.
pub lex_undecided {ℓ} :
    {A : Type ℓ} (first next : A → A → Bool) (a b : A)
    → lex first next a b ≡ false
    → lex first next b a ≡ false
    → ((first a b ≡ false) × (first b a ≡ false)) × ((next a b ≡ false) × (next b a ≡ false))
lex_undecided first next a b h k = ground arith
