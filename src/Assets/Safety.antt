-- ===== src/Assets/Safety.antt =====
-- What the variant tables and the compatibility matrix of internal/assets/ never allow.
use dreamchat_image_platform.Common.{
  String, ◌≡◌, refl, ◌≢◌, ◌⊎◌, Bool, true, false, not, ◌&&◌, ◌||◌, none, some, List, [], ◌∷◌, ◌==◌,
  if◌then◌else◌, nat_eq, all_of, arith, eq_iff, Bool-cases, &&_split, inl, inr, Option-cases,
}
use dreamchat_image_platform.Assets.{
  tag_of, VariantSpec, ClassifiedVariant, fallback_rank_never, table_for, lookup, classify_variant,
}
use dreamchat_image_platform.Assets.Compatibility.{
  invalid_match, preview, is_one_of, is_strict_character, is_strict_place, compare_character,
  compare_place, compare_variants,
}

lookup-all {ℓ} :
    {A : Type ℓ} (p : A → Bool) (k : String) (table : List (String × A)) (a : A)
    → all_of (λ e. p e.1) table ≡ true
    → lookup k table ≡ some a
    → p a ≡ true
unfolding lookup
lookup-all p k [] a h e = cc
lookup-all p k ((j, b) ∷ table) a h e = ground (arith, lookup-all p k table a)

-- A known variant either may serve as a fallback, is tagged as safe to preview and has a rank below
-- the last, or is none of these.
abbrev is_coherent : VariantSpec → Bool
is_coherent spec =
    if spec.fallback_allowed
    then is_one_of spec.compatibility_tags "preview_safe"
      && not (nat_eq spec.fallback_rank fallback_rank_never)
    else not (is_one_of spec.compatibility_tags "preview_safe")
      && nat_eq spec.fallback_rank fallback_rank_never

coherent_cases :
    (spec : VariantSpec)
    → is_coherent spec ≡ true
    → ((spec.fallback_allowed ≡ true)
        × (is_one_of spec.compatibility_tags "preview_safe" ≡ true)
        × (spec.fallback_rank ≢ fallback_rank_never)
        × (some spec ≢ none))
      ⊎ ((spec.fallback_allowed ≡ false)
          × (is_one_of spec.compatibility_tags "preview_safe" ≡ false)
          × (spec.fallback_rank ≡ fallback_rank_never))
coherent_cases spec h = elim (Bool-cases spec.fallback_allowed) [
  | inl e ↦ inl (e, ground arith, λ q. ground arith, λ q. cc)
  | inr e ↦ inr (e, ground arith, ground arith)
]

tables_coherent :
    (entity_type : String) → all_of (λ e. is_coherent e.1) (table_for entity_type) ≡ true
tables_coherent entity_type = elim (Bool-cases (entity_type == "character")) [
  | inl e ↦ rw e
  | inr e ↦ elim (Bool-cases (entity_type == "place")) [ inl f ↦ rw (e, f) | inr f ↦ rw (e, f) ]
]

-- A key's classification either may serve as a fallback, is tagged as safe to preview and has a rank
-- below the last, or is none of these; an unknown key and an unknown entity type are none of these.
pub classify_variant-coherent :
    (entity_type key : String)
    → let v = classify_variant entity_type key in
      ((v.fallback_allowed ≡ true)
        × (is_one_of v.compatibility_tags "preview_safe" ≡ true)
        × (v.fallback_rank ≢ fallback_rank_never)
        × (lookup key (table_for entity_type) ≢ none))
      ⊎ ((v.fallback_allowed ≡ false)
          × (is_one_of v.compatibility_tags "preview_safe" ≡ false)
          × (v.fallback_rank ≡ fallback_rank_never))
unfolding classify_variant
classify_variant-coherent entity_type key =
    elim (Option-cases (lookup key (table_for entity_type))) [
      | inl e ↦ rw e (inr (refl, refl, refl))
      | inr (spec, e) ↦ rw e (
          coherent_cases spec (
            lookup-all is_coherent key (table_for entity_type) spec (tables_coherent entity_type)
              e))
    ]

neither : {a b : Bool} → (a || b) ≡ false → (a ≡ false) × (b ≡ false)
neither h = (ground arith, ground arith)

-- Where a variant is matched to one of another key, neither is of the unknown family, the entity type
-- is a known one, and neither family is strict for it.
pub compare_variants_strict :
    (entity_type : String) (r c : ClassifiedVariant)
    → (r.key == c.key) ≡ false
    → ((compare_variants entity_type r c).outcome ≢ invalid_match)
    → (r.family ≢ "unknown")
      × (c.family ≢ "unknown")
      × (((entity_type ≡ "character")
            × (is_strict_character r.family ≡ false)
            × (is_strict_character c.family ≡ false))
          ⊎ ((entity_type ≡ "place")
              × (is_strict_place r.family ≡ false)
              × (is_strict_place c.family ≡ false)))
unfolding compare_variants compare_character compare_place
compare_variants_strict entity_type r c apart h =
    elim (Bool-cases (r.family == "unknown" || c.family == "unknown")) [
      | inl u ↦ absurd (h (rw (apart, compare_variants, u) refl))
      | inr u ↦ (
        λ q. ground (arith, eq_iff r.family "unknown"),
        λ q. ground (arith, eq_iff c.family "unknown"),
        elim (Bool-cases (entity_type == "character")) [
          | inl e ↦
              elim (Bool-cases (is_strict_character r.family || is_strict_character c.family)) [
                | inl s ↦ absurd (h (rw (apart, compare_variants, u, e, compare_character, s) refl))
                | inr s ↦ inl ((eq_iff entity_type "character").0 e, (neither s).0, (neither s).1)
              ]
          | inr e ↦ elim (Bool-cases (entity_type == "place")) [
            | inr f ↦ absurd (h (rw (apart, compare_variants, u, e, f) refl))
            | inl f ↦ elim (Bool-cases (is_strict_place r.family || is_strict_place c.family)) [
              | inl s ↦ absurd (h (rw (apart, compare_variants, u, e, f, compare_place, s) refl))
              | inr s ↦ inr ((eq_iff entity_type "place").0 f, (neither s).0, (neither s).1)
            ]
          ]
        ],
      )
    ]

-- Characters of two families match only across neutral, and only where the candidate may serve as a
-- fallback: a warm expression never stands in for a tense one, nor the other way round.
pub compare_character-families :
    (r c : ClassifiedVariant)
    → ((compare_character r c).outcome ≢ invalid_match)
    → r.family ≢ c.family
    → ((r.family ≡ "neutral") ⊎ (c.family ≡ "neutral")) × (c.fallback_allowed ≡ true)
unfolding compare_character
compare_character-families r c h apart =
    elim (Bool-cases (is_strict_character r.family || is_strict_character c.family)) [
      | inl s ↦ absurd (h (rw (compare_character, s) refl))
      | inr s ↦ elim (Bool-cases c.fallback_allowed) [
        | inl f ↦ elim (Bool-cases (r.family == "neutral")) [
          | inl n ↦ (inl ((eq_iff r.family "neutral").0 n), f)
          | inr n ↦ elim (Bool-cases (c.family == "neutral")) [
            | inl m ↦ (inr ((eq_iff c.family "neutral").0 m), f)
            | inr m ↦ absurd (h (ground (arith, s, n, m, f, eq_iff r.family c.family)))
          ]
        ]
        | inr f ↦ absurd (h (ground (arith, s, f, eq_iff r.family c.family)))
      ]
    ]

-- Places of two families match only where an establishing view, with no time of day of its own and
-- allowed as a fallback, previews a time of day.
pub compare_place-families :
    (r c : ClassifiedVariant)
    → ((compare_place r c).outcome ≢ invalid_match)
    → r.family ≢ c.family
    → (r.family ≡ "time_of_day")
      × (c.family ≡ "establishing")
      × (c.fallback_allowed ≡ true)
      × (tag_of "time_of_day" c.tags ≡ "")
      × (compare_place r c ≡ preview 40)
unfolding compare_place
compare_place-families r c h apart =
    elim (Bool-cases (r.family == "time_of_day" && c.family == "establishing")) [
      | inl b ↦ elim (Bool-cases (c.fallback_allowed && tag_of "time_of_day" c.tags == "")) [
        | inl f ↦
            let (b0, b1) = &&_split (r.family == "time_of_day") (c.family == "establishing") b in
            let (f0, f1) = &&_split c.fallback_allowed (tag_of "time_of_day" c.tags == "") f in
            (
              (eq_iff r.family "time_of_day").0 b0,
              (eq_iff c.family "establishing").0 b1,
              f0,
              (eq_iff (tag_of "time_of_day" c.tags) "").0 f1,
              elim (Bool-cases (is_strict_place r.family || is_strict_place c.family)) [
                | inl s ↦ absurd (h (rw (compare_place, s) refl))
                | inr s ↦ ground (arith, s, b, f, eq_iff r.family c.family)
              ],
            )
        | inr f ↦ absurd (h (ground (arith, b, f, eq_iff r.family c.family)))
      ]
      | inr b ↦ absurd (h (ground (arith, b, eq_iff r.family c.family)))
    ]
