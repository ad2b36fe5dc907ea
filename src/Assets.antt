-- ===== src/Assets.antt =====
-- internal/assets/variants.go: the tables of the known variants and `ClassifyVariant`. A
-- `map[string]string` of tags is an association list, and a missing tag the empty text.
pub mod Supersede
pub mod Superseding
pub mod Compatibility
pub mod Safety
pub mod Retrieval
pub mod Picking
mod Tests
use dreamchat_image_platform.Common.{
  ℕ, String, Bool, true, false, Option, none, some, List, [], ◌∷◌, ◌==◌, if◌then◌else◌,
}

pub record VariantSpec : Type 0 where
  pub family : String
  pub tags : List (String × String)
  pub compatibility_tags : List String
  pub fallback_allowed : Bool
  pub fallback_rank : ℕ

pub record ClassifiedVariant : Type 0 where
  pub key : String
  pub entity_type : String
  pub family : String
  pub tags : List (String × String)
  pub compatibility_tags : List String
  pub fallback_allowed : Bool
  pub fallback_rank : ℕ

abbrev variant : String → List (String × String) → List String → Bool → ℕ → VariantSpec
variant family tags compatibility_tags fallback_allowed fallback_rank = record {
  family = family;
  tags = tags;
  compatibility_tags = compatibility_tags;
  fallback_allowed = fallback_allowed;
  fallback_rank = fallback_rank;
}

abbrev pub fallback_rank_never : ℕ
fallback_rank_never = 1000

-- A variant that never substitutes for another.
abbrev strict : String → String → String → VariantSpec
strict family tag value = variant family ((tag, value) ∷ []) [] false fallback_rank_never

abbrev strong_emotion : String → VariantSpec
strong_emotion value = strict "strong_emotion" "expression" value

abbrev outfit : String → VariantSpec
outfit value = strict "outfit" "outfit" value

abbrev character_state : String → VariantSpec
character_state value = strict "state" "state" value

abbrev strong_weather : String → VariantSpec
strong_weather value = strict "weather" "weather" value

abbrev place_framing : String → VariantSpec
place_framing value = strict "place_framing" "framing" value

abbrev place_state : String → VariantSpec
place_state value = strict "place_state" "state" value

abbrev pub character_variants : List (String × VariantSpec)
character_variants =
    (
      "neutral_front_portrait",
      variant "neutral" (("angle", "front") ∷ ("expression", "neutral") ∷ [])
          ("generic_presence" ∷ "preview_safe" ∷ "identity_anchor_eligible" ∷ []) true 10,
    )
    ∷ (
      "neutral_front",
      variant "neutral" (("angle", "front") ∷ ("expression", "neutral") ∷ [])
          ("generic_presence" ∷ "preview_safe" ∷ "identity_anchor_eligible" ∷ []) true 10,
    )
    ∷ (
      "neutral_three_quarter_portrait",
      variant "neutral" (("angle", "three_quarter") ∷ ("expression", "neutral") ∷ [])
          ("generic_presence" ∷ "preview_safe" ∷ "identity_anchor_eligible" ∷ []) true 20,
    )
    ∷ (
      "neutral_three_quarter",
      variant "neutral" (("angle", "three_quarter") ∷ ("expression", "neutral") ∷ [])
          ("generic_presence" ∷ "preview_safe" ∷ "identity_anchor_eligible" ∷ []) true 20,
    )
    ∷ (
      "neutral_bust",
      variant "neutral" (("angle", "front") ∷ ("framing", "bust") ∷ ("expression", "neutral") ∷ [])
          ("generic_presence" ∷ "preview_safe" ∷ []) true 30,
    )
    ∷ (
      "side_angle_portrait",
      variant "neutral" (("angle", "side_profile") ∷ ("expression", "neutral") ∷ [])
          ("preview_safe" ∷ []) true 60,
    )
    ∷ (
      "side_profile",
      variant "neutral" (("angle", "side_profile") ∷ ("expression", "neutral") ∷ [])
          ("preview_safe" ∷ []) true 60,
    )
    ∷ (
      "expression_warm",
      variant "warm" (("expression", "warm") ∷ []) ("preview_safe" ∷ []) true 40,
    )
    ∷ (
      "warm_expression",
      variant "warm" (("expression", "warm") ∷ []) ("preview_safe" ∷ []) true 40,
    )
    ∷ (
      "expression_smiling",
      variant "warm" (("expression", "smiling") ∷ []) ("preview_safe" ∷ []) true 40,
    )
    ∷ ("smiling", variant "warm" (("expression", "smiling") ∷ []) ("preview_safe" ∷ []) true 40)
    ∷ (
      "warm_or_smiling_expression",
      variant "warm" (("expression", "warm") ∷ []) ("preview_safe" ∷ []) true 40,
    )
    ∷ (
      "expression_serious",
      variant "tense" (("expression", "serious") ∷ []) ("preview_safe" ∷ []) true 40,
    )
    ∷ ("serious", variant "tense" (("expression", "serious") ∷ []) ("preview_safe" ∷ []) true 40)
    ∷ (
      "expression_tense",
      variant "tense" (("expression", "tense") ∷ []) ("preview_safe" ∷ []) true 40,
    )
    ∷ (
      "tense_expression",
      variant "tense" (("expression", "tense") ∷ []) ("preview_safe" ∷ []) true 40,
    )
    ∷ (
      "serious_or_tense_expression",
      variant "tense" (("expression", "serious") ∷ []) ("preview_safe" ∷ []) true 40,
    )
    ∷ ("expression_angry", strong_emotion "angry")
    ∷ ("angry_expression", strong_emotion "angry")
    ∷ ("expression_surprised", strong_emotion "surprised")
    ∷ ("surprised_expression", strong_emotion "surprised")
    ∷ ("angry_or_defensive_expression", strong_emotion "angry")
    ∷ ("surprised_or_shocked_expression", strong_emotion "surprised")
    ∷ ("expression_sad", strong_emotion "sad")
    ∷ ("expression_afraid", strong_emotion "afraid")
    ∷ ("expression_terrified", strong_emotion "terrified")
    ∷ ("expression_crying", strong_emotion "crying")
    ∷ ("expression_romantic", strong_emotion "romantic")
    ∷ ("outfit_formal", outfit "formal")
    ∷ ("outfit_travel", outfit "travel")
    ∷ ("outfit_work", outfit "work")
    ∷ ("state_injured", character_state "injured")
    ∷ ("state_disguised", character_state "disguised")
    ∷ ("battle_damaged", character_state "battle_damaged")
    ∷ ("profile_icon", variant "portrait_crop" (("framing", "icon") ∷ []) ([]) false 1000)
    ∷ ("full_body_reference", variant "full_body" (("framing", "full_body") ∷ []) ([]) false 1000)
    ∷ []

abbrev pub place_variants : List (String × VariantSpec)
place_variants =
    (
      "establishing_wide_view",
      variant "establishing" (("framing", "wide") ∷ []) ("generic_presence" ∷ "preview_safe" ∷ [])
          true 10,
    )
    ∷ (
      "establishing_wide",
      variant "establishing" (("framing", "wide") ∷ []) ("generic_presence" ∷ "preview_safe" ∷ [])
          true 10,
    )
    ∷ (
      "establishing_wide_day",
      variant "establishing" (("framing", "wide") ∷ ("time_of_day", "day") ∷ [])
          ("generic_presence" ∷ "preview_safe" ∷ []) true 10,
    )
    ∷ (
      "closer_atmospheric_view",
      variant "establishing" (("framing", "close") ∷ []) ("preview_safe" ∷ []) true 40,
    )
    ∷ (
      "closer_atmospheric",
      variant "establishing" (("framing", "close") ∷ []) ("preview_safe" ∷ []) true 40,
    )
    ∷ (
      "day_view",
      variant "time_of_day" (("time_of_day", "day") ∷ []) ("preview_safe" ∷ []) true 40,
    )
    ∷ ("night_view", variant "time_of_day" (("time_of_day", "night") ∷ []) ([]) false 1000)
    ∷ ("dawn_view", variant "time_of_day" (("time_of_day", "dawn") ∷ []) ([]) false 1000)
    ∷ ("dusk_view", variant "time_of_day" (("time_of_day", "dusk") ∷ []) ([]) false 1000)
    ∷ (
      "calm_empty_view",
      variant "crowd" (("crowd", "empty") ∷ ("mood", "calm") ∷ []) ("preview_safe" ∷ []) true 40,
    )
    ∷ (
      "calm_or_empty_view",
      variant "crowd" (("crowd", "empty") ∷ ("mood", "calm") ∷ []) ("preview_safe" ∷ []) true 40,
    )
    ∷ (
      "empty_view",
      variant "crowd" (("crowd", "empty") ∷ ("mood", "calm") ∷ []) ("preview_safe" ∷ []) true 40,
    )
    ∷ (
      "busy_active_view",
      variant "crowd" (("crowd", "busy") ∷ ("mood", "active") ∷ []) ([]) false 1000,
    )
    ∷ (
      "busy_or_active_view",
      variant "crowd" (("crowd", "busy") ∷ ("mood", "active") ∷ []) ([]) false 1000,
    )
    ∷ ("active_view", variant "crowd" (("crowd", "busy") ∷ ("mood", "active") ∷ []) ([]) false 1000)
    ∷ (
      "clear_day_view",
      variant "weather" (("weather", "clear") ∷ ("time_of_day", "day") ∷ []) ("preview_safe" ∷ [])
          true 40,
    )
    ∷ (
      "overcast_view",
      variant "weather" (("weather", "overcast") ∷ []) ("preview_safe" ∷ []) true 40,
    )
    ∷ ("weather_rain", strong_weather "rain")
    ∷ ("rainy_view", strong_weather "rain")
    ∷ ("weather_snow", strong_weather "snow")
    ∷ ("weather_storm", strong_weather "storm")
    ∷ ("storm_view", strong_weather "storm")
    ∷ ("interior_view", place_framing "interior")
    ∷ ("exterior_view", place_framing "exterior")
    ∷ ("landmark_detail", place_framing "landmark_detail")
    ∷ ("state_damaged", place_state "damaged")
    ∷ ("state_rebuilt", place_state "rebuilt")
    ∷ ("state_occupied", place_state "occupied")
    ∷ []

abbrev pub table_for : String → List (String × VariantSpec)
table_for entity_type =
    if entity_type == "character"
    then character_variants
    else if entity_type == "place"
    then place_variants
    else []

unfoldable pub lookup {ℓ} : {A : Type ℓ} → String → List (String × A) → Option A
lookup k [] = none
lookup k ((j, a) ∷ rest) = if j == k then some a else lookup k rest

abbrev pub tag_of : String → List (String × String) → String
unfolding lookup
tag_of name tags = elim (lookup name tags) [ none ↦ "" | some value ↦ value ]

abbrev pub classified : String → String → Option VariantSpec → ClassifiedVariant
classified entity_type key none = record {
  key = key;
  entity_type = entity_type;
  family = "unknown";
  tags = [];
  compatibility_tags = [];
  fallback_allowed = false;
  fallback_rank = fallback_rank_never;
}
classified entity_type key (some spec) = record {
  key = key;
  entity_type = entity_type;
  family = spec.family;
  tags = spec.tags;
  compatibility_tags = spec.compatibility_tags;
  fallback_allowed = spec.fallback_allowed;
  fallback_rank = spec.fallback_rank;
}

unfoldable pub classify_variant : String → String → ClassifiedVariant
classify_variant entity_type key = classified entity_type key (lookup key (table_for entity_type))
