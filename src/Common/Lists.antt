-- ===== src/Common/Lists.antt =====
-- Lists over the native numbers, filters by a Boolean test, and membership by recursion.
use Prim.Native.Nat.{ℕ, suc, ◌≤◌}
use mathlib.Core.Path.{◌≡◌, refl}
use mathlib.Core.Logic.{◌⊎◌, inl, inr}
use mathlib.Core.Bool.{Bool, true, false, ◌&&◌, ◌||◌}
use mathlib.Core.List.{List, [], ◌∷◌}
use native.Mathlib.Omega.{arith}
use dreamchat_image_platform.Common.Tests.{if◌then◌else◌, Bool-cases}

module _ {ℓ} {A : Type ℓ} where
  abbrev pub length : List A → ℕ
  length [] = 0
  length (x ∷ xs) = suc (length xs)

  -- A loop that appends the elements that pass a test.
  unfoldable pub keep_if : (A → Bool) → List A → List A
  keep_if p [] = []
  keep_if p (x ∷ xs) = if p x then x ∷ keep_if p xs else keep_if p xs

  -- Every element has the property.
  abbrev pub All {κ} : (A → Type κ) → List A → Type κ
  All P [] = Unit
  All P (x ∷ xs) = P x × All P xs

  abbrev pub is_empty : List A → Bool
  is_empty [] = true
  is_empty (x ∷ xs) = false

  abbrev pub any_of : (A → Bool) → List A → Bool
  any_of p [] = false
  any_of p (x ∷ xs) = p x || any_of p xs

  abbrev pub all_of : (A → Bool) → List A → Bool
  all_of p [] = true
  all_of p (x ∷ xs) = p x && all_of p xs

  pub keep_if-keep_if :
      (p q : A → Bool) (xs : List A) → keep_if q (keep_if p xs) ≡ keep_if (λ x. p x && q x) xs
  unfolding keep_if
  keep_if-keep_if p q [] = refl
  keep_if-keep_if p q (x ∷ xs) = elim (Bool-cases (p x)) [
    | inl h ↦ ground (arith, keep_if-keep_if p q xs)
    | inr h ↦ ground (arith, keep_if-keep_if p q xs)
  ]

  pub keep_if_none : (p : A → Bool) (xs : List A) → ((x : A) → p x ≡ true) → keep_if p xs ≡ xs
  unfolding keep_if
  keep_if_none p [] h = refl
  keep_if_none p (x ∷ xs) h = ground (arith, h x, keep_if_none p xs h)

  pub keep_if-All : (p : A → Bool) (xs : List A) → All (λ x. p x ≡ true) (keep_if p xs)
  unfolding keep_if
  keep_if-All p [] = tt
  keep_if-All p (x ∷ xs) = ground (arith, keep_if-All p xs)

  pub length-keep_if : (p : A → Bool) (xs : List A) → length (keep_if p xs) ≤ length xs
  unfolding keep_if
  length-keep_if p [] = omega arith
  length-keep_if p (x ∷ xs) = ground (arith, length-keep_if p xs)

module _ {A : Type 0} where
  -- The element stands in the list.
  abbrev pub Occurs : A → List A → Type 0
  Occurs a [] = ⊥
  Occurs a (x ∷ xs) = (a ≡ x) ⊎ Occurs a xs

  pub Occurs-keep_if :
      (p : A → Bool) (a : A) (xs : List A) → Occurs a xs → p a ≡ true → Occurs a (keep_if p xs)
  unfolding keep_if
  Occurs-keep_if p a [] m h = elim m [ ]
  Occurs-keep_if p a (x ∷ xs) m h = ground (arith, Occurs-keep_if p a xs)

  pub keep_if-Occurs :
      (p : A → Bool) (a : A) (xs : List A) → Occurs a (keep_if p xs) → Occurs a xs × (p a ≡ true)
  unfolding keep_if
  keep_if-Occurs p a [] m = elim m [ ]
  keep_if-Occurs p a (x ∷ xs) m = ground (arith, keep_if-Occurs p a xs)

  pub All-Occurs {κ} : (P : A → Type κ) (a : A) (xs : List A) → All P xs → Occurs a xs → P a
  All-Occurs P a [] h m = elim m [ ]
  All-Occurs P a (x ∷ xs) h (inl e) = rw e h.0
  All-Occurs P a (x ∷ xs) h (inr m) = All-Occurs P a xs h.1 m

module _ {ℓ} {A : Type ℓ} where
  pub keep_if_all_fail : (p : A → Bool) (xs : List A) → ((x : A) → p x ≡ false) → keep_if p xs ≡ []
  unfolding keep_if
  keep_if_all_fail p [] h = refl
  keep_if_all_fail p (x ∷ xs) h = ground (arith, h x, keep_if_all_fail p xs h)

  pub keep_if_cong :
      (p q : A → Bool) (xs : List A) → ((x : A) → p x ≡ q x) → keep_if p xs ≡ keep_if q xs
  unfolding keep_if
  keep_if_cong p q [] h = refl
  keep_if_cong p q (x ∷ xs) h = ground (arith, h x, keep_if_cong p q xs h)
