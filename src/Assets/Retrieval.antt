-- ===== src/Assets/Retrieval.antt =====
-- internal/assets/retrieval.go: retrieval before generation. The source of assets is a parameter; the
-- columns that only its queries read are left out of a query.
use dreamchat_image_platform.Common.{
  ℕ, String, Bool, true, false, not, ◌&&◌, ◌||◌, Option, none, some, List, map, ◌==◌, ◌!=◌, ltb,
  nat_eq, if◌then◌else◌, keep_if,
}
use Prim.Native.String.{◌++◌}
use dreamchat_image_platform.Common.Int.{ℤ, pos, ltb_ℤ, eqb_ℤ}
use dreamchat_image_platform.Common.Sort.{stable_sort, first_of_list}
use dreamchat_image_platform.Common.Texts.{text_lt}
use dreamchat_image_platform.Assets.{ClassifiedVariant, fallback_rank_never, classify_variant}
use dreamchat_image_platform.Assets.Compatibility.{
  MatchOutcome, exact_match, compatible_match, preview_fallback, invalid_match, CompatibilityResult,
  compare_variants,
}

pub record VisualAsset : Type 0 where
  pub id : String
  pub variant_key : String
  pub status : String
  pub fallback_rank : Option ℤ
  pub is_identity_anchor : Bool

pub record RetrievalQuery : Type 0 where
  pub visual_identity_id : String
  pub entity_type : String
  pub variant_key : String
  pub fallback_policy : String

pub data MatchType : Type 0 where
  matched : MatchOutcome → MatchType
  generated_required : MatchType

pub record RetrievalResult : Type 0 where
  pub match_type : MatchType
  pub asset : Option VisualAsset
  pub compatibility_score : ℕ
  pub fallback_reason : String
  pub generation_recommended : Bool

pub data RetrievalError : Type 0 where
  invalid_fallback_policy source_failed : String → RetrievalError

pub data Result {ℓ} (A : Type ℓ) : Type ℓ where
  ok : A → Result A
  err : RetrievalError → Result A

-- `none` is ErrNotFound.
pub record CandidateSource : Type 0 where
  pub find_exact : RetrievalQuery → Result (Option VisualAsset)
  pub list_retrieval_candidates : RetrievalQuery → Result (List VisualAsset)

unfoldable pub valid_fallback_policy : String → Bool
valid_fallback_policy p =
    p == "none" || p == "compatible_only" || p == "preview_allowed" || p == "any_existing"

abbrev pub generation_needed : RetrievalResult
generation_needed = record {
  match_type = generated_required;
  asset = none;
  compatibility_score = 0;
  fallback_reason = "";
  generation_recommended = true;
}

pub record ScoredCandidate : Type 0 where
  pub asset : VisualAsset
  pub outcome : MatchOutcome
  pub score : ℕ
  pub reason : String

unfoldable pub candidate_reusable : VisualAsset → Bool
candidate_reusable c =
    if c.status != "ready" then false else if c.is_identity_anchor then false else true

abbrev pub is_compatible : MatchOutcome → Bool
is_compatible compatible_match = true
is_compatible o = false

abbrev pub is_preview : MatchOutcome → Bool
is_preview preview_fallback = true
is_preview o = false

abbrev pub is_exact : MatchOutcome → Bool
is_exact exact_match = true
is_exact o = false

unfoldable pub outcome_allowed_by_policy : MatchOutcome → String → Bool
outcome_allowed_by_policy outcome policy =
    if policy == "none"
    then false
    else if policy == "compatible_only"
    then is_compatible outcome
    else if policy == "preview_allowed" || policy == "any_existing"
    then is_compatible outcome || is_preview outcome
    else false

abbrev pub outcome_tier : MatchOutcome → ℕ
outcome_tier exact_match = 3
outcome_tier compatible_match = 2
outcome_tier preview_fallback = 1
outcome_tier invalid_match = 0

abbrev pub fallback_rank_of : VisualAsset → ℤ
fallback_rank_of a = elim a.fallback_rank [ none ↦ pos fallback_rank_never | some r ↦ r ]

abbrev outcome_text : MatchOutcome → String
outcome_text exact_match = "exact_match"
outcome_text compatible_match = "compatible_match"
outcome_text preview_fallback = "preview_fallback"
outcome_text invalid_match = "invalid_match"

fallback_reason : String → ClassifiedVariant → ClassifiedVariant → MatchOutcome → String
fallback_reason entity_type requested candidate outcome =
    entity_type ++ "." ++ requested.family ++ "→" ++ candidate.family ++ "." ++ outcome_text outcome

-- The comparison of `pickBest`.
unfoldable pub picked_before : ScoredCandidate → ScoredCandidate → Bool
picked_before a b =
    if not (nat_eq (outcome_tier a.outcome) (outcome_tier b.outcome))
    then ltb (outcome_tier b.outcome) (outcome_tier a.outcome)
    else if not (nat_eq a.score b.score)
    then ltb b.score a.score
    else if not (eqb_ℤ (fallback_rank_of a.asset) (fallback_rank_of b.asset))
    then ltb_ℤ (fallback_rank_of a.asset) (fallback_rank_of b.asset)
    else text_lt a.asset.id b.asset.id

-- `sorted[0]`; `none` only for no candidates.
unfoldable pub pick_best : List ScoredCandidate → Option ScoredCandidate
pick_best l = first_of_list picked_before (stable_sort picked_before l)

abbrev pub verdict : RetrievalQuery → VisualAsset → CompatibilityResult
verdict q c =
    compare_variants q.entity_type (classify_variant q.entity_type q.variant_key)
      (classify_variant q.entity_type c.variant_key)

-- The tests of the loop of `bestMatch`. The world-state filter always passes.
abbrev pub qualifies : RetrievalQuery → VisualAsset → Bool
qualifies q c =
    candidate_reusable c
    && (not (is_exact (verdict q c).outcome)
        && outcome_allowed_by_policy (verdict q c).outcome q.fallback_policy)

unfoldable pub scored : RetrievalQuery → VisualAsset → ScoredCandidate
unfolding fallback_reason
scored q c = record {
  asset = c;
  outcome = (verdict q c).outcome;
  score = (verdict q c).score;
  reason =
      fallback_reason q.entity_type (classify_variant q.entity_type q.variant_key)
        (classify_variant q.entity_type c.variant_key) (verdict q c).outcome;
}

abbrev pub fallback_result : Option ScoredCandidate → Option RetrievalResult
fallback_result none = none
fallback_result (some best) = some (record {
  match_type = matched best.outcome;
  asset = some best.asset;
  compatibility_score = best.score;
  fallback_reason = best.reason;
  generation_recommended = true;
})

unfoldable pub best_match : RetrievalQuery → List VisualAsset → Option RetrievalResult
best_match q candidates =
    fallback_result (pick_best (map (scored q) (keep_if (qualifies q) candidates)))

abbrev pub exists_for : RetrievalQuery → VisualAsset → Bool
exists_for q c = candidate_reusable c && not (is_exact (verdict q c).outcome)

unfoldable pub existing : RetrievalQuery → VisualAsset → ScoredCandidate
existing q c = record {
  asset = c;
  outcome = preview_fallback;
  score = (verdict q c).score;
  reason = "any_existing.debug: best existing candidate (matrix produced no normal match)";
}

unfoldable pub best_any_existing : RetrievalQuery → List VisualAsset → Option RetrievalResult
best_any_existing q candidates =
    fallback_result (pick_best (map (existing q) (keep_if (exists_for q) candidates)))

unfoldable pub choose : RetrievalQuery → List VisualAsset → RetrievalResult
choose q candidates = elim (best_match q candidates) [
  | some best ↦ best
  | none ↦
      if q.fallback_policy == "any_existing"
      then (elim (best_any_existing q candidates) [ some best ↦ best | none ↦ generation_needed ])
      else generation_needed
]

unfoldable pub fall_back : CandidateSource → RetrievalQuery → Result RetrievalResult
fall_back source q =
    if q.fallback_policy == "none"
    then ok generation_needed
    else elim (source.list_retrieval_candidates q) [
      | err e ↦ err e
      | ok candidates ↦ ok (choose q candidates)
    ]

abbrev pub exact_result : VisualAsset → RetrievalResult
exact_result a = record {
  match_type = matched exact_match;
  asset = some a;
  compatibility_score = 100;
  fallback_reason = "";
  generation_recommended = false;
}

unfoldable pub retrieve : CandidateSource → RetrievalQuery → Result RetrievalResult
retrieve source q =
    let policy = if q.fallback_policy == "" then "compatible_only" else q.fallback_policy in
    let q' = record q { fallback_policy = policy } in
    if not (valid_fallback_policy policy)
    then err (invalid_fallback_policy q.fallback_policy)
    else elim (source.find_exact q') [
      | err e ↦ err e
      | ok none ↦ fall_back source q'
      | ok (some a) ↦ ok (exact_result a)
    ]
