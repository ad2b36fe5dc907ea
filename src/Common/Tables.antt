-- ===== src/Common/Tables.antt =====
-- Database tables with a text primary key, as lists of rows: the row of a key, and an UPDATE of it.
use Prim.Native.String.{String}
use mathlib.Core.Path.{◌≡◌, refl, subst}
use mathlib.Core.Logic.{inl, inr}
use mathlib.Core.Bool.{Bool, false}
use mathlib.Core.Option.{Option, none, some}
use mathlib.Core.List.{List, [], ◌∷◌}
use native.Mathlib.Omega.{arith}
use text.Mathlib.TextEquality.{eq_iff}
use text.Mathlib.TextPositions.{eq_refl}
use dreamchat_image_platform.Common.Lists.{All, keep_if}
use dreamchat_image_platform.Common.Tests.{◌==◌, if◌then◌else◌, Bool-cases}

abbrev pub map_row {ℓ} : {A : Type ℓ} → (A → A) → Option A → Option A
map_row f none = none
map_row f (some a) = some (f a)

module _ {ℓ} {A : Type ℓ} (key : A → String) where
  unfoldable pub find_row : String → List A → Option A
  find_row k [] = none
  find_row k (r ∷ rows) = if key r == k then some r else find_row k rows

  -- UPDATE … WHERE id = k. A key names one row.
  unfoldable pub update_row : String → (A → A) → List A → List A
  update_row k f [] = []
  update_row k f (r ∷ rows) = if key r == k then f r ∷ rows else r ∷ update_row k f rows

  pub find_row-update_row :
      (j k : String) (f : A → A) (rows : List A)
      → ((r : A) → key (f r) ≡ key r)
      → find_row j (update_row k f rows)
        ≡ (if k == j then map_row f (find_row j rows) else find_row j rows)
  unfolding find_row update_row
  find_row-update_row j k f [] h = ground arith
  find_row-update_row j k f (r ∷ rows) h = ground (
    arith,
    h r,
    eq_iff (key r) k,
    eq_iff (key r) j,
    eq_iff (key (f r)) j,
    eq_iff k j,
    find_row-update_row j k f rows h,
  )

  -- No two rows have one key.
  abbrev pub Distinct : List A → Type 0
  Distinct [] = Unit
  Distinct (r ∷ rows) = All (λ s. (key r == key s) ≡ false) rows × Distinct rows

  -- Rows that stand in the table, each under its key.
  abbrev pub Stored : List A → List A → Type ℓ
  Stored rows = All (λ r. find_row (key r) rows ≡ some r)

  pub find_row_fresh :
      (k : String) (rows : List A) → find_row k rows ≡ none → All (λ s. (k == key s) ≡ false) rows
  unfolding find_row
  find_row_fresh k [] h = tt
  find_row_fresh k (r ∷ rows) h = (
    ground (arith, eq_iff k (key r), eq_iff (key r) k),
    find_row_fresh k rows (ground (arith, eq_iff (key r) k)),
  )

  All-update_row :
      (P : String → Type 0) (k : String) (f : A → A) (rows : List A)
      → ((r : A) → key (f r) ≡ key r)
      → All (λ r. P (key r)) rows
      → All (λ r. P (key r)) (update_row k f rows)
  unfolding update_row
  All-update_row P k f [] h a = tt
  All-update_row P k f (r ∷ rows) h a = elim (Bool-cases (key r == k)) [
    | inl e ↦ rw (e, h r) a
    | inr e ↦ rw e (a.0, All-update_row P k f rows h a.1)
  ]

  pub Distinct-update_row :
      (k : String) (f : A → A) (rows : List A)
      → ((r : A) → key (f r) ≡ key r)
      → Distinct rows
      → Distinct (update_row k f rows)
  unfolding update_row
  Distinct-update_row k f [] h d = tt
  Distinct-update_row k f (r ∷ rows) h d = elim (Bool-cases (key r == k)) [
    | inl e ↦ rw (e, h r) d
    | inr e ↦ rw e (
      All-update_row (λ s. (key r == s) ≡ false) k f rows h d.0,
      Distinct-update_row k f rows h d.1,
    )
  ]

  All-keep_if {κ} :
      (P : A → Type κ) (p : A → Bool) (rows : List A) → All P rows → All P (keep_if p rows)
  unfolding keep_if
  All-keep_if P p [] h = tt
  All-keep_if P p (r ∷ rows) h = elim (Bool-cases (p r)) [
    | inl e ↦ rw e (h.0, All-keep_if P p rows h.1)
    | inr e ↦ rw e (All-keep_if P p rows h.1)
  ]

  Stored-cons :
      (s : A) (rows l : List A)
      → All (λ r. (key s == key r) ≡ false) l
      → Stored rows l
      → Stored (s ∷ rows) l
  unfolding find_row
  Stored-cons s rows [] a h = tt
  Stored-cons s rows (r ∷ l) a h = (rw a.0 h.0, Stored-cons s rows l a.1 h.1)

  -- The rows that a filter of the table keeps are stored, under distinct keys.
  pub keep_if-Stored :
      (p : A → Bool) (rows : List A)
      → Distinct rows
      → Stored rows (keep_if p rows) × Distinct (keep_if p rows)
  unfolding keep_if find_row
  keep_if-Stored p [] d = (tt, tt)
  keep_if-Stored p (r ∷ rows) d =
      let (stored, apart) = keep_if-Stored p rows d.1 in
      let other = All-keep_if (λ s. (key r == key s) ≡ false) p rows d.0 in
      let later = Stored-cons r rows (keep_if p rows) other stored in
      elim (Bool-cases (p r)) [
        | inl e ↦ rw e ((ground (arith, eq_refl (key r)), later), (other, apart))
        | inr e ↦ rw e (later, apart)
      ]

  -- An update that makes the first kept row fail the filter takes it out of what is kept.
  pub keep_if-update_row :
      (p : A → Bool) (f : A → A) (r : A) (l rows : List A)
      → ((s : A) → p (f s) ≡ false)
      → Distinct rows
      → keep_if p rows ≡ r ∷ l
      → keep_if p (update_row (key r) f rows) ≡ l
  unfolding keep_if update_row
  keep_if-update_row p f r l [] fails d e = cc
  keep_if-update_row p f r l (x ∷ rows) fails d e = elim (Bool-cases (p x)) [
    | inl kept ↦ ground (arith, kept, eq_iff (key x) (key r), fails x)
    | inr dropped ↦
        let e' : keep_if p rows ≡ r ∷ l = rw dropped at e in
        let apart = All-keep_if (λ s. (key x == key s) ≡ false) p rows d.0 in
        let x≢r = (subst (All (λ s. (key x == key s) ≡ false)) e' apart).0 in
        ground (arith, x≢r, dropped, keep_if-update_row p f r l rows fails d.1 e')
  ]

  -- The row that is found has the key.
  pub find_row-key : (k : String) (r : A) (rows : List A) → find_row k rows ≡ some r → key r ≡ k
  unfolding find_row
  find_row-key k r [] h = cc
  find_row-key k r (x ∷ rows) h = ground (arith, eq_iff (key x) k, find_row-key k r rows)

  -- An update that does nothing to what it has updated does nothing the second time.
  pub update_row_twice :
      (k : String) (f : A → A) (rows : List A)
      → ((r : A) → key (f r) ≡ key r)
      → ((r : A) → f (f r) ≡ f r)
      → update_row k f (update_row k f rows) ≡ update_row k f rows
  unfolding update_row
  update_row_twice k f [] h i = refl
  update_row_twice k f (r ∷ rows) h i = ground (arith, h r, i r, update_row_twice k f rows h i)
