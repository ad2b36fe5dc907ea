-- ===== src/Assets/Superseding.antt =====
-- Proofs about a forced regeneration: what its slot holds afterwards, and what it leaves alone.
use dreamchat_image_platform.Common.{
  Option, some, String, true, false, not, ◌&&◌, ◌==◌, none, List, [], ◌∷◌, keep_if, ◌≡◌, refl,
  arith, eq_refl, All, All-Occurs, Occurs, sym, Bool-cases, inl, inr,
}
use dreamchat_image_platform.Common.Int.{ℤ, pos, negsuc, ltb_ℤ}
use dreamchat_image_platform.Assets.Supersede.{
  StoredAsset, ArtifactSlot, asset_ready, asset_archived, is_ready, in_slot,
  max_version_for_artifact_slot, larger, greatest_version, or_zero, next_int32, insert_version,
  insert_asset, archive_prior, archive_prior_ready_artifact_slot, supersede_artifact_slot,
}

abbrev pub ready_in_slot : ArtifactSlot → List StoredAsset → List StoredAsset
ready_in_slot slot rows = keep_if (λ a. in_slot slot a && is_ready a.status) rows

abbrev pub outside_slot : ArtifactSlot → List StoredAsset → List StoredAsset
outside_slot slot rows = keep_if (λ a. not (in_slot slot a)) rows

-- The row that takes the slot over.
abbrev pub successor : StoredAsset → ArtifactSlot → List StoredAsset → StoredAsset
successor params slot rows = record params {
  version = insert_version (next_int32 (max_version_for_artifact_slot slot rows));
  status = asset_ready;
  superseded_by_asset_id = none;
}

in_slot-archive_prior :
    (id : String) (slot : ArtifactSlot) (a : StoredAsset)
    → in_slot slot (archive_prior id slot a) ≡ in_slot slot a
unfolding in_slot archive_prior
in_slot-archive_prior id slot a =
    elim (Bool-cases (in_slot slot a && (is_ready a.status && not (a.id == id)))) [
      | inl h ↦ rw h refl
      | inr h ↦ rw h refl
    ]

archived_not_ready :
    (id : String) (slot : ArtifactSlot) (a : StoredAsset)
    → (a.id == id) ≡ false
    → (in_slot slot a && is_ready (archive_prior id slot a).status) ≡ false
unfolding archive_prior
archived_not_ready id slot a fresh = ground arith

archived_outside :
    (id : String) (slot : ArtifactSlot) (a : StoredAsset)
    → in_slot slot a ≡ false
    → archive_prior id slot a ≡ a
unfolding archive_prior
archived_outside id slot a h = rw h refl

ready_in_slot-archive :
    (id : String) (slot : ArtifactSlot) (rows : List StoredAsset)
    → All (λ a. (a.id == id) ≡ false) rows
    → ready_in_slot slot (archive_prior_ready_artifact_slot id slot rows) ≡ []
unfolding keep_if archive_prior_ready_artifact_slot
ready_in_slot-archive id slot [] fresh = refl
ready_in_slot-archive id slot (a ∷ rows) fresh = ground (
  arith,
  in_slot-archive_prior id slot a,
  archived_not_ready id slot a fresh.0,
  ready_in_slot-archive id slot rows fresh.1,
)

outside_slot-archive :
    (id : String) (slot : ArtifactSlot) (rows : List StoredAsset)
    → outside_slot slot (archive_prior_ready_artifact_slot id slot rows) ≡ outside_slot slot rows
unfolding keep_if archive_prior_ready_artifact_slot
outside_slot-archive id slot [] = refl
outside_slot-archive id slot (a ∷ rows) = ground (
  arith,
  in_slot-archive_prior id slot a,
  archived_outside id slot a,
  outside_slot-archive id slot rows,
)

abbrev Bounds : ℤ → Option ℤ → Type 0
Bounds m none = Unit
Bounds m (some v) = ltb_ℤ m v ≡ false

larger-Bounds :
    (m v : ℤ) (g : Option ℤ) → ltb_ℤ m (larger v g) ≡ false → (ltb_ℤ m v ≡ false) × Bounds m g
larger-Bounds m v none h = (h, tt)
larger-Bounds m v (some w) h = (ground arith, ground arith)

-- Every version in the slot is at most a bound of the greatest.
greatest_version_bound :
    (slot : ArtifactSlot) (rows : List StoredAsset) (m : ℤ)
    → Bounds m (greatest_version slot rows)
    → All (λ a. in_slot slot a ≡ true → ltb_ℤ m a.version ≡ false) rows
unfolding greatest_version
greatest_version_bound slot [] m h = tt
greatest_version_bound slot (a ∷ rows) m h = elim (Bool-cases (in_slot slot a)) [
  | inl e ↦
      let (here, rest) =
        larger-Bounds m a.version (greatest_version slot rows) (rw (e, greatest_version) at h) in
      (λ _. here, greatest_version_bound slot rows m rest)
  | inr e ↦ (λ t. cc, greatest_version_bound slot rows m (rw (e, greatest_version) at h))
]

or_zero-Bounds : (g : Option ℤ) → Bounds (or_zero g) g
or_zero-Bounds none = tt
or_zero-Bounds (some v) = ground arith

next_version_above :
    (m v : ℤ)
    → ltb_ℤ m (pos 2147483647) ≡ true
    → ltb_ℤ m v ≡ false
    → ltb_ℤ v (insert_version (next_int32 m)) ≡ true
next_version_above (pos n) v h k = ground arith
next_version_above (negsuc n) v h k = ground arith

versions_above :
    (slot : ArtifactSlot) (l : List StoredAsset) (m : ℤ)
    → ltb_ℤ m (pos 2147483647) ≡ true
    → All (λ a. in_slot slot a ≡ true → ltb_ℤ m a.version ≡ false) l
    → All (λ a. in_slot slot a ≡ true → ltb_ℤ a.version (insert_version (next_int32 m)) ≡ true) l
versions_above slot [] m h k = tt
versions_above slot (a ∷ l) m h (here, later) =
    (λ e. next_version_above m a.version h (here e), versions_above slot l m h later)

archive_prior_new : (slot : ArtifactSlot) (a : StoredAsset) → archive_prior a.id slot a ≡ a
unfolding archive_prior
archive_prior_new slot a = elim (Bool-cases (in_slot slot a && is_ready a.status)) [
  | inl h ↦ ground (arith, eq_refl a.id)
  | inr h ↦ ground (arith, eq_refl a.id)
]

supersede_artifact_slot-split :
    (params : StoredAsset) (slot : ArtifactSlot) (rows : List StoredAsset)
    → supersede_artifact_slot params slot rows
      ≡ successor params slot rows ∷ archive_prior_ready_artifact_slot params.id slot rows
unfolding supersede_artifact_slot insert_asset archive_prior_ready_artifact_slot
supersede_artifact_slot-split params slot rows =
    rw (archive_prior_new slot (successor params slot rows)) refl

abbrev pub archived_by : String → StoredAsset → StoredAsset
archived_by id a = record a { status = asset_archived; superseded_by_asset_id = some id }

-- A ready row of the slot is archived and linked forward.
archived_linked :
    (id : String) (slot : ArtifactSlot) (a : StoredAsset) (rows : List StoredAsset)
    → Occurs a rows
    → (a.id == id) ≡ false
    → in_slot slot a ≡ true
    → is_ready a.status ≡ true
    → Occurs (archived_by id a) (archive_prior_ready_artifact_slot id slot rows)
unfolding archive_prior_ready_artifact_slot archive_prior
archived_linked id slot a [] m fresh here ready = elim m [ ]
archived_linked id slot a (r ∷ rows) (inl e) fresh here ready =
    inl (rw (sym e) (rw (here, ready, fresh) refl))
archived_linked id slot a (r ∷ rows) (inr m) fresh here ready =
    inr (archived_linked id slot a rows m fresh here ready)

in_slot-successor :
    (params : StoredAsset) (slot : ArtifactSlot) (rows : List StoredAsset)
    → in_slot slot params ≡ true
    → in_slot slot (successor params slot rows) ≡ true
unfolding in_slot
in_slot-successor params slot rows h = h

-- A forced regeneration with a new id, in the slot it is for, whose style and prompt hash are given: the new
-- asset is then the only ready one of the slot, the rows outside the slot are those from before, in
-- their order, each row of the slot that was ready is archived and linked to the new asset, and, where the
-- greatest version of the slot is below 2^31 - 1, the new version exceeds every earlier one.
pub supersede_artifact_slot-ready :
    (params : StoredAsset) (slot : ArtifactSlot) (rows : List StoredAsset)
    → in_slot slot params ≡ true
    → All (λ a. (a.id == params.id) ≡ false) rows
    → ltb_ℤ (max_version_for_artifact_slot slot rows) (pos 2147483647) ≡ true
    → (ready_in_slot slot (supersede_artifact_slot params slot rows)
        ≡ successor params slot rows ∷ [])
      × (outside_slot slot (supersede_artifact_slot params slot rows) ≡ outside_slot slot rows)
      × All
          (λ a. in_slot slot a ≡ true → ltb_ℤ a.version (successor params slot rows).version ≡ true)
          rows
      × ((a : StoredAsset)
          → Occurs a rows
          → in_slot slot a ≡ true
          → is_ready a.status ≡ true
          → Occurs (archived_by params.id a) (supersede_artifact_slot params slot rows))
unfolding keep_if max_version_for_artifact_slot
supersede_artifact_slot-ready params slot rows here fresh room = (
  rw
      (
        supersede_artifact_slot-split params slot rows,
        in_slot-successor params slot rows here,
        ready_in_slot-archive params.id slot rows fresh,
      )
      refl,
  rw (supersede_artifact_slot-split params slot rows, in_slot-successor params slot rows here)
      (outside_slot-archive params.id slot rows),
  versions_above slot rows (or_zero (greatest_version slot rows)) room (
      greatest_version_bound slot rows (or_zero (greatest_version slot rows))
        (or_zero-Bounds (greatest_version slot rows))),
  λ a m inside ready. rw (supersede_artifact_slot-split params slot rows) (
      inr (
        archived_linked params.id slot a rows m
          (All-Occurs (λ x. (x.id == params.id) ≡ false) a rows fresh m) inside ready)),
)
