-- ===== src/Assets/Compatibility.antt =====
-- internal/assets/compatibility.go: whether a stored variant may stand in for a requested one. Scores
-- are in hundredths.
use dreamchat_image_platform.Common.{
  ℕ, String, Bool, ◌&&◌, ◌||◌, List, [], ◌∷◌, ◌==◌, if◌then◌else◌, any_of,
}
use dreamchat_image_platform.Assets.{ClassifiedVariant, tag_of}

pub data MatchOutcome : Type 0 where
  exact_match compatible_match preview_fallback invalid_match : MatchOutcome

pub record CompatibilityResult : Type 0 where
  pub outcome : MatchOutcome
  pub score : ℕ

abbrev pub exact : CompatibilityResult
exact = record { outcome = exact_match; score = 100 }

abbrev pub invalid : CompatibilityResult
invalid = record { outcome = invalid_match; score = 0 }

abbrev pub compatible : ℕ → CompatibilityResult
compatible score = record { outcome = compatible_match; score = score }

abbrev pub preview : ℕ → CompatibilityResult
preview score = record { outcome = preview_fallback; score = score }

abbrev pub is_one_of : List String → String → Bool
is_one_of set name = any_of (λ s. s == name) set

abbrev pub is_strict_character : String → Bool
is_strict_character =
    is_one_of ("strong_emotion" ∷ "outfit" ∷ "state" ∷ "portrait_crop" ∷ "full_body" ∷ [])

abbrev pub is_strict_place : String → Bool
is_strict_place = is_one_of ("place_framing" ∷ "place_state" ∷ [])

abbrev pub is_strong_weather : String → Bool
is_strong_weather = is_one_of ("rain" ∷ "snow" ∷ "storm" ∷ "fog" ∷ "fire" ∷ "flood" ∷ [])

abbrev is_mild_expression : String → Bool
is_mild_expression family = family == "warm" || family == "tense"

abbrev is_frontish : String → Bool
is_frontish angle = angle == "front" || angle == "three_quarter" || angle == "bust"

abbrev is_twilight : String → Bool
is_twilight tod = tod == "dawn" || tod == "dusk"

-- The comparisons of two angles, times of day, weathers and crowds.
unfoldable pub compare_angles : String → String → CompatibilityResult
compare_angles ra ca =
    if ra == ca
    then compatible 90
    else if is_frontish ra && is_frontish ca
    then compatible 85
    else if ra == "side_profile" || ca == "side_profile"
    then preview 50
    else if ra == "back" || ca == "back"
    then invalid
    else invalid

unfoldable pub compare_times : String → String → CompatibilityResult
compare_times rt ct =
    if rt == ct
    then compatible 90
    else if is_twilight rt && is_twilight ct
    then compatible 70
    else invalid

unfoldable pub compare_weathers : String → String → CompatibilityResult
compare_weathers requested candidate =
    if is_strong_weather requested
    then invalid
    else if is_strong_weather candidate
    then invalid
    else compatible 70

unfoldable pub compare_crowds : String → String → CompatibilityResult
compare_crowds requested candidate = if requested == candidate then compatible 80 else invalid

unfoldable pub compare_character : ClassifiedVariant → ClassifiedVariant → CompatibilityResult
compare_character r c =
    if is_strict_character r.family || is_strict_character c.family
    then invalid
    else if r.family == c.family
    then (if r.family == "neutral"
        then compare_angles (tag_of "angle" r.tags) (tag_of "angle" c.tags)
        else compatible 85)
    else if is_mild_expression r.family && c.family == "neutral"
    then (if c.fallback_allowed then compatible 65 else invalid)
    else if r.family == "neutral" && is_mild_expression c.family
    then (if c.fallback_allowed then compatible 65 else invalid)
    else invalid

unfoldable pub compare_place : ClassifiedVariant → ClassifiedVariant → CompatibilityResult
compare_place r c =
    if is_strict_place r.family || is_strict_place c.family
    then invalid
    else if r.family == c.family
    then (if r.family == "time_of_day"
        then compare_times (tag_of "time_of_day" r.tags) (tag_of "time_of_day" c.tags)
        else if r.family == "weather"
        then compare_weathers (tag_of "weather" r.tags) (tag_of "weather" c.tags)
        else if r.family == "crowd"
        then compare_crowds (tag_of "crowd" r.tags) (tag_of "crowd" c.tags)
        else if r.family == "establishing"
        then compatible 80
        else invalid)
    else if r.family == "time_of_day" && c.family == "establishing"
    then (if c.fallback_allowed && tag_of "time_of_day" c.tags == "" then preview 40 else invalid)
    else invalid

unfoldable pub compare_variants :
    String → ClassifiedVariant → ClassifiedVariant → CompatibilityResult
compare_variants entity_type r c =
    if r.key == c.key
    then exact
    else if r.family == "unknown" || c.family == "unknown"
    then invalid
    else if entity_type == "character"
    then compare_character r c
    else if entity_type == "place"
    then compare_place r c
    else invalid
