-- ===== src/Common/Sort.antt =====
-- A stable sort by a Boolean order (what `sort.SliceStable` returns), the scan for a least element,
-- and the fact that the two agree on the first element.
use mathlib.Core.Path.{◌≡◌, refl, ap, sym, ◌∙◌}
use mathlib.Core.Logic.{◌⊎◌, inl, inr}
use mathlib.Core.Bool.{Bool, false}
use mathlib.Core.Option.{Option, none, some}
use mathlib.Core.List.{List, [], ◌∷◌, Perm}
use mathlib.Core.List.Perm
use native.Mathlib.Omega.{arith}
use dreamchat_image_platform.Common.Tests.{if◌then◌else◌, Bool-cases}
use dreamchat_image_platform.Common.Lists.{All, Occurs}
use dreamchat_image_platform.Common.Order.{IsStrictWeak, irreflexive}

module _ {ℓ} {A : Type ℓ} (lt : A → A → Bool) where
  unfoldable pub insert_sorted : A → List A → List A
  insert_sorted x [] = x ∷ []
  insert_sorted x (y ∷ ys) = if lt y x then y ∷ insert_sorted x ys else x ∷ y ∷ ys

  -- Stable: an element is put before the first that does not rank before it.
  unfoldable pub stable_sort : List A → List A
  unfolding insert_sorted
  stable_sort [] = []
  stable_sort (x ∷ xs) = insert_sorted x (stable_sort xs)

  -- `best` is replaced by each element that ranks before it.
  unfoldable pub scan_best : A → List A → A
  scan_best best [] = best
  scan_best best (x ∷ xs) = scan_best (if lt x best then x else best) xs

  abbrev pub first_of_list : List A → Option A
  first_of_list [] = none
  first_of_list (x ∷ xs) = some x

  -- Each element ranks before none that precedes it.
  abbrev pub Ordered : List A → Type ℓ
  Ordered [] = Unit
  Ordered (x ∷ xs) = All (λ y. lt y x ≡ false) xs × Ordered xs

module _ {ℓ} {A : Type ℓ} (lt : A → A → Bool) where
  insert_sorted-Perm : (x : A) (ys : List A) → Perm (insert_sorted lt x ys) (x ∷ ys)
  unfolding insert_sorted
  insert_sorted-Perm x [] = Perm.refl _
  insert_sorted-Perm x (y ∷ ys) = elim (Bool-cases (lt y x)) [
    | inl h ↦ rw h (Perm.trans (Perm.cons y (insert_sorted-Perm x ys)) (Perm.swap x y ys))
    | inr h ↦ rw h (Perm.refl _)
  ]

  pub stable_sort-Perm : (xs : List A) → Perm (stable_sort lt xs) xs
  unfolding stable_sort
  stable_sort-Perm [] = Perm.refl _
  stable_sort-Perm (x ∷ xs) =
      Perm.trans (insert_sorted-Perm x (stable_sort lt xs)) (Perm.cons x (stable_sort-Perm xs))

  insert_sorted-All {κ} :
      (P : A → Type κ) (x : A) (ys : List A) → P x → All P ys → All P (insert_sorted lt x ys)
  unfolding insert_sorted
  insert_sorted-All P x [] p h = (p, tt)
  insert_sorted-All P x (y ∷ ys) p h = elim (Bool-cases (lt y x)) [
    | inl e ↦ rw e (h.0, insert_sorted-All P x ys p h.1)
    | inr e ↦ rw e (p, h)
  ]

  pub stable_sort-All {κ} : (P : A → Type κ) (xs : List A) → All P xs → All P (stable_sort lt xs)
  unfolding stable_sort
  stable_sort-All P [] h = tt
  stable_sort-All P (x ∷ xs) h =
      insert_sorted-All P x (stable_sort lt xs) h.0 (stable_sort-All P xs h.1)

module _ {ℓ} {A : Type ℓ} (lt : A → A → Bool) (w : IsStrictWeak lt) where
  weaken :
      (x y : A) (ys : List A)
      → lt y x ≡ false
      → All (λ z. lt z y ≡ false) ys
      → All (λ z. lt z x ≡ false) ys
  weaken x y [] h k = tt
  weaken x y (z ∷ zs) h k = (w.neg_trans z y x k.0 h, weaken x y zs h k.1)

  insert_sorted-Ordered : (x : A) (ys : List A) → Ordered lt ys → Ordered lt (insert_sorted lt x ys)
  unfolding insert_sorted
  insert_sorted-Ordered x [] h = (tt, tt)
  insert_sorted-Ordered x (y ∷ ys) h = elim (Bool-cases (lt y x)) [
    | inl e ↦ rw e (
      insert_sorted-All lt (λ z. lt z y ≡ false) x ys (w.asym y x e) h.0,
      insert_sorted-Ordered x ys h.1,
    )
    | inr e ↦ rw e ((e, weaken x y ys e h.0), h)
  ]

  pub stable_sort-Ordered : (xs : List A) → Ordered lt (stable_sort lt xs)
  unfolding stable_sort
  stable_sort-Ordered [] = tt
  stable_sort-Ordered (x ∷ xs) =
      insert_sorted-Ordered x (stable_sort lt xs) (stable_sort-Ordered xs)

  abbrev pick : A → A → A
  pick x y = if lt y x then y else x

  pick_assoc : (x y z : A) → pick (pick x y) z ≡ pick x (pick y z)
  pick_assoc x y z = ground (
    arith,
    w.asym y x,
    w.asym z y,
    w.neg_trans z y x,
    w.neg_trans z x y,
    w.neg_trans y z x,
    w.neg_trans x z y,
    w.asym z x,
  )

  scan_best-pick : (x y : A) (zs : List A) → scan_best lt (pick x y) zs ≡ pick x (scan_best lt y zs)
  unfolding scan_best
  scan_best-pick x y [] = refl
  scan_best-pick x y (z ∷ zs) =
      ap (λ b. scan_best lt b zs) (pick_assoc x y z) ∙ scan_best-pick x (pick y z) zs

  -- The scan and the stable sort choose the same element.
  pub first-stable_sort :
      (x : A) (xs : List A) → first_of_list lt (stable_sort lt (x ∷ xs)) ≡ some (scan_best lt x xs)
  unfolding stable_sort scan_best insert_sorted
  first-stable_sort x [] = refl
  first-stable_sort x (y ∷ ys) =
      step (stable_sort lt (y ∷ ys)) (first-stable_sort y ys)
      ∙ ap some (sym (scan_best-pick x y ys))
    where
      step :
          (l : List A)
          → first_of_list lt l ≡ some (scan_best lt y ys)
          → first_of_list lt (insert_sorted lt x l) ≡ some (pick x (scan_best lt y ys))
      step [] h = ground arith
      step (z ∷ zs) h = ground arith

  -- No element ranks before the one that the scan returns.
  pub scan_best_least : (x : A) (xs : List A) → All (λ y. lt y (scan_best lt x xs) ≡ false) (x ∷ xs)
  unfolding scan_best
  scan_best_least x [] = (irreflexive lt w x, tt)
  scan_best_least x (y ∷ ys) =
      let least = scan_best_least (pick x y) ys in
      let best = scan_best lt (pick x y) ys in
      (
        w.neg_trans x (pick x y) best (ground (arith, w.asym y x, irreflexive lt w x)) least.0,
        (w.neg_trans y (pick x y) best (ground (arith, irreflexive lt w y)) least.0, least.1),
      )

module _ {A : Type 0} (lt : A → A → Bool) where
  widen :
      (b x y z : A) (ys : List A) → (z ≡ x) ⊎ (z ≡ y) → Occurs b (z ∷ ys) → Occurs b (x ∷ y ∷ ys)
  widen b x y z ys (inl e) (inl m) = inl (m ∙ e)
  widen b x y z ys (inr e) (inl m) = inr (inl (m ∙ e))
  widen b x y z ys e (inr m) = inr (inr m)

  -- The scan returns an element of the list.
  pub Occurs-scan_best : (x : A) (xs : List A) → Occurs (scan_best lt x xs) (x ∷ xs)
  unfolding scan_best
  Occurs-scan_best x [] = inl refl
  Occurs-scan_best x (y ∷ ys) =
      let z = if lt y x then y else x in
      widen (scan_best lt z ys) x y z ys (ground arith) (Occurs-scan_best z ys)
