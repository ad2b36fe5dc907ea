-- ===== src/Assets/Supersede.antt =====
-- internal/assets/supersede.go and the two inserts of internal/assets/repository.go, on the columns of
-- visual_assets that they write: a forced regeneration takes over its slot.
use dreamchat_image_platform.Common.{
  String, Bool, true, false, not, ◌&&◌, ◌==◌, nat_eq, ◌+◌, ◌-◌, Option, none, some, List, [], ◌∷◌,
  map, if◌then◌else◌,
}
use dreamchat_image_platform.Common.Int.{ℤ, pos, negsuc, ltb_ℤ, eqb_ℤ}

pub data AssetStatus : Type 0 where
  asset_pending asset_preview_ready asset_ready asset_failed asset_archived : AssetStatus

-- A row of visual_assets, and what is asked to be inserted. A style or prompt hash that is NULL is the empty
-- text here, and a version is an int32.
pub record StoredAsset : Type 0 where
  pub id : String
  pub tenant_id : String
  pub world_id : String
  pub asset_type : String
  pub variant_key : String
  pub style_profile_id : String
  pub quality_tier : String
  pub prompt_hash : String
  pub version : ℤ
  pub status : AssetStatus
  pub superseded_by_asset_id : Option String

pub record ArtifactSlot : Type 0 where
  pub tenant_id : String
  pub world_id : String
  pub style_profile_id : String
  pub quality_tier : String
  pub prompt_hash : String

abbrev pub is_ready : AssetStatus → Bool
is_ready asset_ready = true
is_ready s = false

-- `column = $n` for an optional text, whose parameter strPtr makes NULL where it is empty: NULL equals nothing.
abbrev sql_eq : String → String → Bool
sql_eq stored asked = not (asked == "") && stored == asked

-- The predicate of FindReadyArtifactByPromptHash without the status.
unfoldable pub in_slot : ArtifactSlot → StoredAsset → Bool
in_slot slot a =
    a.tenant_id == slot.tenant_id
    && (a.world_id == slot.world_id
        && (a.asset_type == "artifact"
            && (a.variant_key == "default"
                && (sql_eq a.style_profile_id slot.style_profile_id
                    && (a.quality_tier == slot.quality_tier
                        && sql_eq a.prompt_hash slot.prompt_hash)))))

abbrev pub larger : ℤ → Option ℤ → ℤ
larger v none = v
larger v (some w) = if ltb_ℤ v w then w else v

-- MAX(version), which is NULL of no rows.
unfoldable pub greatest_version : ArtifactSlot → List StoredAsset → Option ℤ
greatest_version slot [] = none
greatest_version slot (a ∷ rows) =
    let rest = greatest_version slot rows in
    if in_slot slot a then some (larger a.version rest) else rest

abbrev pub or_zero : Option ℤ → ℤ
or_zero none = pos 0
or_zero (some v) = v

-- COALESCE(MAX(version), 0)
unfoldable pub max_version_for_artifact_slot : ArtifactSlot → List StoredAsset → ℤ
max_version_for_artifact_slot slot rows = or_zero (greatest_version slot rows)

-- The sum of an int32 and 1, which wraps around at 2^31 - 1.
abbrev pub next_int32 : ℤ → ℤ
next_int32 (pos n) = if nat_eq n 2147483647 then negsuc 2147483647 else pos (n + 1)
next_int32 (negsuc n) = if nat_eq n 0 then pos 0 else negsuc (n - 1)

-- The version of an insert that names none is 1.
abbrev pub insert_version : ℤ → ℤ
insert_version version = if eqb_ℤ version (pos 0) then pos 1 else version

-- InsertWithQueries
unfoldable pub insert_asset : StoredAsset → List StoredAsset → List StoredAsset
insert_asset params rows =
    record params {
      version = insert_version params.version;
      status = asset_ready;
      superseded_by_asset_id = none;
    }
    ∷ rows

-- InsertPreviewWithQueries
unfoldable pub insert_preview_asset : StoredAsset → List StoredAsset → List StoredAsset
insert_preview_asset params rows =
    record params {
      version = insert_version params.version;
      status = asset_preview_ready;
      superseded_by_asset_id = none;
    }
    ∷ rows

unfoldable pub archive_prior : String → ArtifactSlot → StoredAsset → StoredAsset
archive_prior new_id slot a =
    if in_slot slot a && (is_ready a.status && not (a.id == new_id))
    then record a { status = asset_archived; superseded_by_asset_id = some new_id }
    else a

-- ArchivePriorReadyArtifactSlot
unfoldable pub archive_prior_ready_artifact_slot :
    String → ArtifactSlot → List StoredAsset → List StoredAsset
archive_prior_ready_artifact_slot new_id slot rows = map (archive_prior new_id slot) rows

-- supersedeArtifactSlot
unfoldable pub supersede_artifact_slot :
    StoredAsset → ArtifactSlot → List StoredAsset → List StoredAsset
supersede_artifact_slot params slot rows = archive_prior_ready_artifact_slot params.id slot (
    insert_asset (record params { version = next_int32 (max_version_for_artifact_slot slot rows) })
      rows)
