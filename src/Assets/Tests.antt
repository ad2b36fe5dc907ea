-- ===== src/Assets/Tests.antt =====
-- Concrete variants of internal/assets/, and the theorems on them.
use dreamchat_image_platform.Common.{All, ◌∷◌, []}
use dreamchat_image_platform.Assets.Supersede.{
  StoredAsset, ArtifactSlot, asset_ready, in_slot, supersede_artifact_slot, greatest_version,
  max_version_for_artifact_slot, insert_asset, archive_prior_ready_artifact_slot, archive_prior,
}
use dreamchat_image_platform.Assets.Superseding.{
  ready_in_slot, outside_slot, successor, supersede_artifact_slot-ready,
}
use dreamchat_image_platform.Assets.Retrieval.{
  candidate_reusable, outcome_allowed_by_policy, pick_best,
}
use dreamchat_image_platform.Common.Sort.{stable_sort}
use dreamchat_image_platform.Common.{keep_if}
use dreamchat_image_platform.Assets.Retrieval.{valid_fallback_policy}
use dreamchat_image_platform.Common.{String, ◌≡◌, refl, ◌≢◌, ◌⊎◌, true, false, none, ◌==◌}
use dreamchat_image_platform.Assets.{ClassifiedVariant, lookup, classify_variant}
use dreamchat_image_platform.Assets.Compatibility.{
  invalid_match, compatible, preview, is_strict_character, is_strict_place, compare_character,
  compare_place, compare_variants,
}
use dreamchat_image_platform.Common.{some, List, [], ◌∷◌}
use dreamchat_image_platform.Assets.Compatibility.{compatible_match}
use dreamchat_image_platform.Assets.Retrieval.{
  VisualAsset, RetrievalQuery, matched, RetrievalResult, ok, CandidateSource, scored, verdict,
  best_match, choose, exact_result, retrieve, generation_needed,
}
use dreamchat_image_platform.Common.{Occurs, none}
use dreamchat_image_platform.Common.Int.{ltb_ℤ, pos}
use dreamchat_image_platform.Assets.Supersede.{is_ready}
use dreamchat_image_platform.Assets.Superseding.{archived_by}
use dreamchat_image_platform.Assets.Picking.{
  MayStandIn, Better, IsUsable, best_match-IsPicked, choose-IsUsable,
}
use dreamchat_image_platform.Assets.Safety.{compare_variants_strict}

abbrev character : String
character = "character"

abbrev known : String → String → ClassifiedVariant
known entity_type key = classify_variant entity_type key

matches_warm :
    (compare_variants "character" (known "character" "smiling") (known "character" "neutral_front"))
    ≡ compatible 65
unfolding compare_variants classify_variant lookup compare_character
matches_warm = refl

variants_matched :
    (compare_variants "character"
      (known "character" "smiling")
      (known "character" "neutral_front")).outcome
    ≢ invalid_match
variants_matched = λ e. cc matches_warm

keys_differ : ((known "character" "smiling").key == (known "character" "neutral_front").key) ≡ false
unfolding classify_variant lookup
keys_differ = refl

compare_variants_strict_example :
    ((known "character" "smiling").family ≢ "unknown")
    × ((known "character" "neutral_front").family ≢ "unknown")
    × (((character ≡ "character")
          × (is_strict_character (known "character" "smiling").family ≡ false)
          × (is_strict_character (known "character" "neutral_front").family ≡ false))
        ⊎ ((character ≡ "place")
            × (is_strict_place (known "character" "smiling").family ≡ false)
            × (is_strict_place (known "character" "neutral_front").family ≡ false)))
compare_variants_strict_example =
    compare_variants_strict "character" (known "character" "smiling")
      (known "character" "neutral_front") keys_differ variants_matched

smiling_neutral :
    compare_character (known "character" "smiling") (known "character" "neutral_front")
    ≡ compatible 65
unfolding compare_character classify_variant lookup
smiling_neutral = refl

character_matched :
    (compare_character (known "character" "smiling") (known "character" "neutral_front")).outcome
    ≢ invalid_match
character_matched = λ e. cc smiling_neutral

families_differ : (known "character" "smiling").family ≢ (known "character" "neutral_front").family
unfolding classify_variant lookup
families_differ = λ e. cc

night_established :
    compare_place (known "place" "night_view") (known "place" "establishing_wide") ≡ preview 40
unfolding compare_place classify_variant lookup
night_established = refl

place_matched :
    (compare_place (known "place" "night_view") (known "place" "establishing_wide")).outcome
    ≢ invalid_match
place_matched = λ e. cc night_established

places_differ : (known "place" "night_view").family ≢ (known "place" "establishing_wide").family
unfolding classify_variant lookup
places_differ = λ e. cc

abbrev neutral_asset : VisualAsset
neutral_asset = record {
  id = "asset_b";
  variant_key = "neutral_front";
  status = "ready";
  fallback_rank = none;
  is_identity_anchor = false;
}

abbrev anchor_asset : VisualAsset
anchor_asset = record neutral_asset { id = "asset_a"; is_identity_anchor = true }

abbrev stored : List VisualAsset
stored = anchor_asset ∷ neutral_asset ∷ []

abbrev query : RetrievalQuery
query = record {
  visual_identity_id = "identity";
  entity_type = "character";
  variant_key = "smiling";
  fallback_policy = "compatible_only";
}

abbrev found : RetrievalResult
found = record {
  match_type = matched compatible_match;
  asset = some neutral_asset;
  compatibility_score = 65;
  fallback_reason = "character.warm→neutral.compatible_match";
  generation_recommended = true;
}

-- The anchor is passed over.
finds_neutral : best_match query stored ≡ some found
unfolding best_match pick_best stable_sort keep_if candidate_reusable compare_variants
    classify_variant lookup compare_character outcome_allowed_by_policy scored
finds_neutral = refl

best_match-IsPicked_example :
    ((best_match query stored ≡ none)
      × ((c : VisualAsset) → Occurs c stored → ¬ MayStandIn query c))
    ⊎ ((c : VisualAsset) × (res : RetrievalResult) × (best_match query stored ≡ some res)
        × Occurs c stored
        × MayStandIn query c
        × ((other : VisualAsset)
            → Occurs other stored
            → MayStandIn query other
            → ¬ Better query other c)
        × (res.asset ≡ some c)
        × (res.match_type ≡ matched (verdict query c).outcome)
        × (res.compatibility_score ≡ (verdict query c).score))
best_match-IsPicked_example = best_match-IsPicked query stored

choose-IsUsable_example :
    (choose query stored ≡ generation_needed) ⊎ IsUsable query stored (choose query stored)
choose-IsUsable_example = choose-IsUsable query stored

abbrev one_exact : CandidateSource
one_exact = record {
  find_exact = λ q. ok (some neutral_asset);
  list_retrieval_candidates = λ q. ok [];
}

-- An exact match is returned as it is, under the default policy too.
retrieves_exact :
    retrieve one_exact (record query { fallback_policy = "" }) ≡ ok (exact_result neutral_asset)
unfolding retrieve valid_fallback_policy
retrieves_exact = refl

abbrev old_artifact : StoredAsset
old_artifact = record {
  id = "old";
  tenant_id = "t1";
  world_id = "w1";
  asset_type = "artifact";
  variant_key = "default";
  style_profile_id = "s1";
  quality_tier = "high";
  prompt_hash = "h1";
  version = pos 4;
  status = asset_ready;
  superseded_by_asset_id = none;
}

abbrev new_artifact : StoredAsset
new_artifact = record old_artifact { id = "new"; version = pos 0 }

abbrev artifact_slot : ArtifactSlot
artifact_slot = record {
  tenant_id = "t1";
  world_id = "w1";
  style_profile_id = "s1";
  quality_tier = "high";
  prompt_hash = "h1";
}

new_in_slot : in_slot artifact_slot new_artifact ≡ true
unfolding in_slot
new_in_slot = refl

below_the_limit :
    ltb_ℤ (max_version_for_artifact_slot artifact_slot (old_artifact ∷ [])) (pos 2147483647) ≡ true
unfolding max_version_for_artifact_slot greatest_version in_slot
below_the_limit = refl

-- Without a prompt hash no row is in the slot, and nothing is archived.
archives_nothing :
    supersede_artifact_slot new_artifact
      (record artifact_slot { prompt_hash = "" })
      (old_artifact ∷ [])
    ≡ record new_artifact { version = pos 1 } ∷ old_artifact ∷ []
unfolding supersede_artifact_slot max_version_for_artifact_slot greatest_version in_slot
    insert_asset archive_prior_ready_artifact_slot archive_prior
archives_nothing = refl

supersede_artifact_slot-ready_example :
    (ready_in_slot artifact_slot
        (supersede_artifact_slot new_artifact artifact_slot (old_artifact ∷ []))
      ≡ successor new_artifact artifact_slot (old_artifact ∷ []) ∷ [])
    × (outside_slot artifact_slot
          (supersede_artifact_slot new_artifact artifact_slot (old_artifact ∷ []))
        ≡ outside_slot artifact_slot (old_artifact ∷ []))
    × All
        (λ a.
          in_slot artifact_slot a ≡ true
          → ltb_ℤ a.version (successor new_artifact artifact_slot (old_artifact ∷ [])).version
            ≡ true)
        (old_artifact ∷ [])
    × ((a : StoredAsset)
        → Occurs a (old_artifact ∷ [])
        → in_slot artifact_slot a ≡ true
        → is_ready a.status ≡ true
        → Occurs
            (archived_by "new" a)
            (supersede_artifact_slot new_artifact artifact_slot (old_artifact ∷ [])))
supersede_artifact_slot-ready_example =
    supersede_artifact_slot-ready new_artifact artifact_slot (old_artifact ∷ []) new_in_slot
      (refl, tt) below_the_limit
