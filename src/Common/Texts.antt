-- ===== src/Common/Texts.antt =====
-- Go's `<` on strings: byte by byte, which on UTF-8 is the order of the code points.
use Prim.Native.Nat.{ℕ, Ordering, compare as compare_ℕ}
use Prim.Native.Char.{code}
use Prim.Native.String.compare
use Prim.Native.String.{String, compare, then}
use text.Mathlib.Text.{is_lt}
use text.Mathlib.TextEquality.{path_by_compare}
use mathlib.Core.Path.{◌≡◌, refl}
use mathlib.Core.Bool.{Bool, true, false}
use native.Mathlib.Omega.{arith}
use dreamchat_image_platform.Common.Order.{IsStrictWeak}

abbrev pub text_lt : String → String → Bool
text_lt s t = is_lt (compare s t)

-- The test of two texts that begin with a character, from the tests of the parts.
then_lt_asym :
    (m n : ℕ) (o p : Ordering)
    → (is_lt o ≡ true → is_lt p ≡ false)
    → is_lt (then (compare_ℕ m n) o) ≡ true
    → is_lt (then (compare_ℕ n m) p) ≡ false
then_lt_asym m n o p f h = ground arith

then_lt_neg_trans :
    (a b c : ℕ) (o p q : Ordering)
    → (is_lt o ≡ false → is_lt p ≡ false → is_lt q ≡ false)
    → is_lt (then (compare_ℕ a b) o) ≡ false
    → is_lt (then (compare_ℕ b c) p) ≡ false
    → is_lt (then (compare_ℕ a c) q) ≡ false
then_lt_neg_trans a b c o p q f h k = ground arith

text_lt_asym : (s t : String) → text_lt s t ≡ true → text_lt t s ≡ false
text_lt_asym String.[] String.[] h = refl
text_lt_asym String.[] (String.◌∷◌ d t) h = rw (compare.cons-nil d t)
text_lt_asym (String.◌∷◌ c s) String.[] h = cc (compare.cons-nil c s)
text_lt_asym (String.◌∷◌ c s) (String.◌∷◌ d t) h = rw (compare.cons-cons d c t s) (
    then_lt_asym (code c) (code d) (compare s t) (compare t s) (text_lt_asym s t)
      (rw (compare.cons-cons c d s t) at h))

text_lt_neg_trans :
    (s t u : String) → text_lt s t ≡ false → text_lt t u ≡ false → text_lt s u ≡ false
text_lt_neg_trans String.[] String.[] String.[] h k = refl
text_lt_neg_trans String.[] String.[] (String.◌∷◌ e u) h k = k
text_lt_neg_trans String.[] (String.◌∷◌ d t) u h k = cc (compare.nil-cons d t)
text_lt_neg_trans (String.◌∷◌ c s) t String.[] h k = rw (compare.cons-nil c s)
text_lt_neg_trans (String.◌∷◌ c s) String.[] (String.◌∷◌ e u) h k = cc (compare.nil-cons e u)
text_lt_neg_trans (String.◌∷◌ c s) (String.◌∷◌ d t) (String.◌∷◌ e u) h k =
    rw (compare.cons-cons c e s u) (
      then_lt_neg_trans (code c) (code d) (code e) (compare s t) (compare t u) (compare s u)
        (text_lt_neg_trans s t u) (rw (compare.cons-cons c d s t) at h)
        (rw (compare.cons-cons d e t u) at k))

pub text_lt-IsStrictWeak : IsStrictWeak text_lt
text_lt-IsStrictWeak = record { asym = text_lt_asym; neg_trans = text_lt_neg_trans }

total_cases :
    (m n : ℕ) (o p : Ordering)
    → is_lt (then (compare_ℕ m n) o) ≡ false
    → is_lt (then (compare_ℕ n m) p) ≡ false
    → (m ≡ n) × (is_lt o ≡ false) × (is_lt p ≡ false)
total_cases m n o p h k = ground arith

no_eq : (s t : String) → text_lt s t ≡ false → text_lt t s ≡ false → compare s t ≡ Ordering.eq
no_eq String.[] String.[] h k = refl
no_eq String.[] (String.◌∷◌ d t) h k = cc (compare.nil-cons d t)
no_eq (String.◌∷◌ c s) String.[] h k = cc (compare.nil-cons c s)
no_eq (String.◌∷◌ c s) (String.◌∷◌ d t) h k =
    let (e, p, q) =
      total_cases (code c) (code d) (compare s t) (compare t s)
        (rw (compare.cons-cons c d s t) at h) (rw (compare.cons-cons d c t s) at k) in
    rw (compare.cons-cons c d s t, no_eq s t p q) (ground (arith, e))

-- Two texts neither of which comes first are one text.
pub text_lt_total : (s t : String) → text_lt s t ≡ false → text_lt t s ≡ false → s ≡ t
text_lt_total s t h k = path_by_compare s t (no_eq s t h k)
