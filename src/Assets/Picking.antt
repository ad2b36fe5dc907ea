-- ===== src/Assets/Picking.antt =====
-- What `Retrieve` of internal/assets/retrieval.go returns in place of an exact match: the best of the
-- candidates that may stand in, and never one that may not.
use dreamchat_image_platform.Common.{
  ℕ, String, ◌≡◌, refl, ◌∙◌, ◌≢◌, ◌⊎◌, ◌↔◌, ◌<◌, none, Option, nat_eq, if◌then◌else◌, Bool, true,
  false, not, ◌&&◌, some, List, [], ◌∷◌, map, ◌==◌, ltb, keep_if, keep_if-Occurs, Occurs-keep_if,
  All, All-Occurs, Occurs, arith, eq_iff, &&_split, Bool-cases, Option-cases, inl, inr, subst, ap,
}
use dreamchat_image_platform.Common.Int.{ℤ, ltb_ℤ, eqb_ℤ, ltb_ℤ-IsStrictWeak}
use dreamchat_image_platform.Common.Order.{
  IsStrictWeak, lex, by_key, by_key-IsStrictWeak, lex-IsStrictWeak, IsStrictWeak-of_eq,
}
use dreamchat_image_platform.Common.Sort.{
  stable_sort, scan_best, first-stable_sort, scan_best_least, Occurs-scan_best,
}
use dreamchat_image_platform.Common.Texts.{text_lt, text_lt-IsStrictWeak}
use dreamchat_image_platform.Assets.Compatibility.{
  MatchOutcome, exact_match, compatible_match, preview_fallback, invalid_match,
}
use dreamchat_image_platform.Assets.Retrieval.{
  VisualAsset, RetrievalQuery, matched, RetrievalResult, generation_needed, ScoredCandidate,
  candidate_reusable, is_exact, outcome_allowed_by_policy, outcome_tier, fallback_rank_of,
  picked_before, pick_best, verdict, qualifies, scored, fallback_result, best_match, exists_for,
  existing, best_any_existing, choose,
}

abbrev higher : ℕ → ℕ → Bool
higher a b = ltb b a

abbrev tier_of : ScoredCandidate → ℕ
tier_of c = outcome_tier c.outcome

abbrev score_of : ScoredCandidate → ℕ
score_of c = c.score

abbrev rank_of : ScoredCandidate → ℤ
rank_of c = fallback_rank_of c.asset

abbrev id_of : ScoredCandidate → String
id_of c = c.asset.id

abbrev by_rank : ScoredCandidate → ScoredCandidate → Bool
by_rank = lex (by_key rank_of ltb_ℤ) (by_key id_of text_lt)

-- Tier, score, fallback rank, id.
abbrev documented : ScoredCandidate → ScoredCandidate → Bool
documented = lex (by_key tier_of higher) (lex (by_key score_of higher) by_rank)

higher-IsStrictWeak : IsStrictWeak higher
higher-IsStrictWeak = record { asym = λ a b h. ground arith; neg_trans = λ a b c h k. ground arith }

picked_before-IsStrictWeak : IsStrictWeak picked_before
unfolding picked_before
picked_before-IsStrictWeak =
    IsStrictWeak-of_eq picked_before documented (λ a b. ground arith)
      (lex-IsStrictWeak (by_key tier_of higher) (lex (by_key score_of higher) by_rank)
        (by_key-IsStrictWeak tier_of higher higher-IsStrictWeak)
        (lex-IsStrictWeak (by_key score_of higher) by_rank
          (by_key-IsStrictWeak score_of higher higher-IsStrictWeak)
          (lex-IsStrictWeak (by_key rank_of ltb_ℤ) (by_key id_of text_lt)
            (by_key-IsStrictWeak rank_of ltb_ℤ ltb_ℤ-IsStrictWeak)
            (by_key-IsStrictWeak id_of text_lt text_lt-IsStrictWeak))))

pick_best-some :
    (l : List ScoredCandidate) (best : ScoredCandidate)
    → pick_best l ≡ some best
    → Occurs best l × All (λ y. picked_before y best ≡ false) l
unfolding pick_best
pick_best-some [] best h = unfold stable_sort in cc
pick_best-some (x ∷ xs) best h =
    let chosen = scan_best picked_before x xs in
    let first = first-stable_sort picked_before picked_before-IsStrictWeak x xs in
    let same : chosen ≡ best = cc in
    (
      subst (λ b. Occurs b (x ∷ xs)) same (Occurs-scan_best picked_before x xs),
      subst (λ b. All (λ y. picked_before y b ≡ false) (x ∷ xs)) same
          (scan_best_least picked_before picked_before-IsStrictWeak x xs),
    )

Occurs-map :
    (f : VisualAsset → ScoredCandidate) (l : List VisualAsset) (b : ScoredCandidate)
    → Occurs b (map f l)
    → (c : VisualAsset) × Occurs c l × (b ≡ f c)
Occurs-map f [] b m = elim m [ ]
Occurs-map f (x ∷ l) b (inl e) = (x, inl refl, e)
Occurs-map f (x ∷ l) b (inr m) = let (c, there, e) = Occurs-map f l b m in (c, inr there, e)

map-Occurs :
    (f : VisualAsset → ScoredCandidate) (l : List VisualAsset) (c : VisualAsset)
    → Occurs c l
    → Occurs (f c) (map f l)
map-Occurs f (x ∷ l) c (inl e) = inl (ap f e)
map-Occurs f (x ∷ l) c (inr m) = inr (map-Occurs f l c m)
map-Occurs f [] c m = elim m [ ]

-- The asset that is chosen of those that pass a test, each scored.
abbrev pub IsPicked :
    (VisualAsset → Bool) → (VisualAsset → ScoredCandidate) → List VisualAsset → VisualAsset → Type 0
IsPicked p f candidates c =
    Occurs c candidates
    × (p c ≡ true)
    × ((other : VisualAsset)
        → Occurs other candidates
        → p other ≡ true
        → picked_before (f other) (f c) ≡ false)

IsPicked-cases :
    (p : VisualAsset → Bool) (f : VisualAsset → ScoredCandidate) (candidates : List VisualAsset)
    (res : RetrievalResult)
    → fallback_result (pick_best (map f (keep_if p candidates))) ≡ some res
    → (c : VisualAsset) × IsPicked p f candidates c × (fallback_result (some (f c)) ≡ some res)
IsPicked-cases p f candidates res h =
    elim (Option-cases (pick_best (map f (keep_if p candidates)))) [
      | inl e ↦ cc (rw e at h)
      | inr (best, e) ↦
          let (there, least) = pick_best-some (map f (keep_if p candidates)) best e in
          let (c, kept, same) = Occurs-map f (keep_if p candidates) best there in
          let (listed, fits) = keep_if-Occurs p c candidates kept in
          (
            c,
            (
              listed,
              fits,
              λ other m k.
                  subst (λ b. picked_before (f other) b ≡ false) same
                    (All-Occurs (λ y. picked_before y best ≡ false) (f other)
                      (map f (keep_if p candidates)) least
                      (map-Occurs f (keep_if p candidates) other
                        (Occurs-keep_if p other candidates m k))),
            ),
            subst (λ b. fallback_result (some b) ≡ some res) same (rw e at h),
          )
    ]

best_match-some :
    (q : RetrievalQuery) (candidates : List VisualAsset) (res : RetrievalResult)
    → best_match q candidates ≡ some res
    → (c : VisualAsset) × IsPicked (qualifies q) (scored q) candidates c
      × (res.asset ≡ some c)
      × (res.match_type ≡ matched (verdict q c).outcome)
      × (res.compatibility_score ≡ (verdict q c).score)
unfolding best_match scored
best_match-some q candidates res h =
    let (c, picked, same) = IsPicked-cases (qualifies q) (scored q) candidates res h in
    (c, picked, cc, cc, cc)

pick_best-none : (l : List ScoredCandidate) → pick_best l ≡ none → l ≡ []
unfolding pick_best
pick_best-none [] h = refl
pick_best-none (x ∷ xs) h =
    let first = first-stable_sort picked_before picked_before-IsStrictWeak x xs in cc

fallback_result-none : (m : Option ScoredCandidate) → fallback_result m ≡ none → m ≡ none
fallback_result-none none h = refl
fallback_result-none (some best) h = cc

-- Where nothing is returned, no candidate has passed the tests.
best_match-none :
    (q : RetrievalQuery) (candidates : List VisualAsset) (c : VisualAsset)
    → best_match q candidates ≡ none
    → Occurs c candidates
    → qualifies q c ≡ true
    → ⊥
unfolding best_match
best_match-none q candidates c h m k =
    let empty =
      pick_best-none (map (scored q) (keep_if (qualifies q) candidates))
        (fallback_result-none _ h) in
    subst (λ l. Occurs (scored q c) l) empty
      (map-Occurs (scored q) (keep_if (qualifies q) candidates) c
        (Occurs-keep_if (qualifies q) c candidates m k))

-- What the policy lets stand in for the request, by the matrix's outcome.
abbrev pub LetsIn : MatchOutcome → String → Type 0
LetsIn o policy =
    ((o ≡ compatible_match)
      × ((policy ≡ "compatible_only") ⊎ ((policy ≡ "preview_allowed") ⊎ (policy ≡ "any_existing"))))
    ⊎ ((o ≡ preview_fallback) × ((policy ≡ "preview_allowed") ⊎ (policy ≡ "any_existing")))

-- A candidate that may stand in: it is ready, no identity anchor, and of an outcome that the policy lets in.
abbrev pub MayStandIn : RetrievalQuery → VisualAsset → Type 0
MayStandIn q c =
    (c.status ≡ "ready")
    × (c.is_identity_anchor ≡ false)
    × LetsIn (verdict q c).outcome q.fallback_policy

let_in :
    (o : MatchOutcome) (policy : String)
    → (not (is_exact o) && outcome_allowed_by_policy o policy) ≡ true
    → LetsIn o policy
unfolding outcome_allowed_by_policy
let_in exact_match policy h = cc
let_in compatible_match policy h = ground (
  arith,
  eq_iff policy "none",
  eq_iff policy "compatible_only",
  eq_iff policy "preview_allowed",
  eq_iff policy "any_existing",
)
let_in preview_fallback policy h = ground (
  arith,
  eq_iff policy "none",
  eq_iff policy "compatible_only",
  eq_iff policy "preview_allowed",
  eq_iff policy "any_existing",
)
let_in invalid_match policy h = ground arith

let_in_back :
    (o : MatchOutcome) (policy : String)
    → LetsIn o policy
    → (not (is_exact o) && outcome_allowed_by_policy o policy) ≡ true
unfolding outcome_allowed_by_policy
let_in_back o policy (inl (e, inl p)) = rw (e, p) refl
let_in_back o policy (inl (e, inr (inl p))) = rw (e, p) refl
let_in_back o policy (inl (e, inr (inr p))) = rw (e, p) refl
let_in_back o policy (inr (e, inl p)) = rw (e, p) refl
let_in_back o policy (inr (e, inr p)) = rw (e, p) refl

reusable_iff :
    (c : VisualAsset)
    → (candidate_reusable c ≡ true) ↔ ((c.status ≡ "ready") × (c.is_identity_anchor ≡ false))
unfolding candidate_reusable
reusable_iff c = (
  λ h. ground (arith, eq_iff c.status "ready"),
  λ (r, a). ground (arith, eq_iff c.status "ready"),
)

qualifies_iff : (q : RetrievalQuery) (c : VisualAsset) → (qualifies q c ≡ true) ↔ MayStandIn q c
qualifies_iff q c =
    let (usable, usable_back) = reusable_iff c in
    (
      λ h.
          let (a, b) = &&_split (candidate_reusable c) _ h in
          let (ready, plain) = usable a in
          (ready, plain, let_in (verdict q c).outcome q.fallback_policy b),
      λ (ready, plain, l).
          rw (usable_back (ready, plain), let_in_back (verdict q c).outcome q.fallback_policy l)
            refl,
    )

-- A compatible match before a preview.
abbrev pub grade : MatchOutcome → ℕ
grade exact_match = 3
grade compatible_match = 2
grade preview_fallback = 1
grade invalid_match = 0

-- The documented preference: the outcome, then the higher score, the lower fallback rank, and the id.
abbrev pub Better : RetrievalQuery → VisualAsset → VisualAsset → Type 0
Better q a b =
    (grade (verdict q b).outcome < grade (verdict q a).outcome)
    ⊎ ((grade (verdict q a).outcome ≡ grade (verdict q b).outcome)
        × (((verdict q b).score < (verdict q a).score)
            ⊎ (((verdict q a).score ≡ (verdict q b).score)
                × ((ltb_ℤ (fallback_rank_of a) (fallback_rank_of b) ≡ true)
                    ⊎ ((eqb_ℤ (fallback_rank_of a) (fallback_rank_of b) ≡ true)
                        × (text_lt a.id b.id ≡ true))))))

grade_lem : (o : MatchOutcome) → outcome_tier o ≡ grade o
grade_lem exact_match = refl
grade_lem compatible_match = refl
grade_lem preview_fallback = refl
grade_lem invalid_match = refl

-- The comparison, on its four keys.
compared :
    (t u s v : ℕ) (r w : ℤ) (i k : Bool)
    → (u < t)
      ⊎ ((t ≡ u) × ((v < s) ⊎ ((s ≡ v) × ((ltb_ℤ r w ≡ true) ⊎ ((eqb_ℤ r w ≡ true) × (i ≡ true))))))
    → (if not (nat_eq t u)
        then ltb u t
        else if not (nat_eq s v)
        then ltb v s
        else if not (eqb_ℤ r w)
        then ltb_ℤ r w
        else i)
      ≡ true
compared t u s v r w i k h = ground arith

Better-picked_before :
    (q : RetrievalQuery) (a b : VisualAsset)
    → Better q a b
    → picked_before (scored q a) (scored q b) ≡ true
unfolding picked_before scored
Better-picked_before q a b h =
    rw (grade_lem (verdict q a).outcome, grade_lem (verdict q b).outcome)
      (compared (grade (verdict q a).outcome) (grade (verdict q b).outcome) (verdict q a).score
        (verdict q b).score (fallback_rank_of a) (fallback_rank_of b) (text_lt a.id b.id) true h)

-- The best match is nothing exactly where no listed candidate may stand in. Otherwise it is a listed
-- candidate that may, no other that may is better by the documented preference, and the result carries
-- it with the matrix's outcome and score.
pub best_match-IsPicked :
    (q : RetrievalQuery) (candidates : List VisualAsset)
    → ((best_match q candidates ≡ none)
        × ((c : VisualAsset) → Occurs c candidates → ¬ MayStandIn q c))
      ⊎ ((c : VisualAsset) × (res : RetrievalResult) × (best_match q candidates ≡ some res)
          × Occurs c candidates
          × MayStandIn q c
          × ((other : VisualAsset)
              → Occurs other candidates
              → MayStandIn q other
              → ¬ Better q other c)
          × (res.asset ≡ some c)
          × (res.match_type ≡ matched (verdict q c).outcome)
          × (res.compatibility_score ≡ (verdict q c).score))
best_match-IsPicked q candidates = elim (Option-cases (best_match q candidates)) [
  | inl e ↦ inl (e, λ c m k. best_match-none q candidates c e m ((qualifies_iff q c).1 k))
  | inr (res, e) ↦
      let (c, (listed, fits, least), asset, kind, points) = best_match-some q candidates res e in
      inr (
        c,
        res,
        e,
        listed,
        (qualifies_iff q c).0 fits,
        λ other m k b.
            let picked : picked_before (scored q other) (scored q c) ≡ true =
              Better-picked_before q other c b in
            let unpicked = least other m ((qualifies_iff q other).1 k) in cc,
        asset,
        kind,
        points,
      )
]

allowed_cases :
    (o : MatchOutcome) (policy : String)
    → outcome_allowed_by_policy o policy ≡ true
    → (o ≡ compatible_match) ⊎ ((o ≡ preview_fallback) × (policy ≢ "compatible_only"))
unfolding outcome_allowed_by_policy
allowed_cases exact_match policy h = ground arith
allowed_cases compatible_match policy h = inl refl
allowed_cases preview_fallback policy h =
    inr (refl, λ e. ground (arith, eq_iff policy "compatible_only", eq_iff policy "none"))
allowed_cases invalid_match policy h = ground arith

-- The result stands on a candidate that may be shown.
abbrev pub IsUsable : RetrievalQuery → List VisualAsset → RetrievalResult → Type 0
IsUsable q candidates res =
    (c : VisualAsset) × Occurs c candidates
    × (candidate_reusable c ≡ true)
    × (res.asset ≡ some c)
    × ((res.match_type ≡ matched compatible_match)
        ⊎ ((res.match_type ≡ matched preview_fallback) × (q.fallback_policy ≢ "compatible_only")))

best_match-IsUsable :
    (q : RetrievalQuery) (candidates : List VisualAsset) (res : RetrievalResult)
    → best_match q candidates ≡ some res
    → IsUsable q candidates res
best_match-IsUsable q candidates res h =
    let (c, (listed, fits, _), asset, kind, _) = best_match-some q candidates res h in
    let (reusable, rest) =
      &&_split (candidate_reusable c)
        (not (is_exact (verdict q c).outcome)
          && outcome_allowed_by_policy (verdict q c).outcome q.fallback_policy)
        fits in
    let (_, allowed) =
      &&_split (not (is_exact (verdict q c).outcome))
        (outcome_allowed_by_policy (verdict q c).outcome q.fallback_policy) rest in
    (
      c,
      listed,
      reusable,
      asset,
      (elim (allowed_cases (verdict q c).outcome q.fallback_policy allowed) [
        | inl e ↦ inl (kind ∙ ap matched e)
        | inr (e, other) ↦ inr (kind ∙ ap matched e, other)
      ]),
    )

best_any_existing-IsUsable :
    (q : RetrievalQuery) (candidates : List VisualAsset) (res : RetrievalResult)
    → q.fallback_policy ≡ "any_existing"
    → best_any_existing q candidates ≡ some res
    → IsUsable q candidates res
unfolding best_any_existing existing
best_any_existing-IsUsable q candidates res p h =
    let (c, (listed, fits, _), same) =
      IsPicked-cases (exists_for q) (existing q) candidates res h in
    let (reusable, _) =
      &&_split (candidate_reusable c) (not (is_exact (verdict q c).outcome)) fits in
    (c, listed, reusable, cc, inr (cc, λ e. cc))

-- Short of an exact match, retrieval asks for a generation or returns a listed asset that is ready and
-- no identity anchor, as compatible or, where the policy is not compatible_only, as a preview.
pub choose-IsUsable :
    (q : RetrievalQuery) (candidates : List VisualAsset)
    → (choose q candidates ≡ generation_needed) ⊎ IsUsable q candidates (choose q candidates)
unfolding choose
choose-IsUsable q candidates = elim (Option-cases (best_match q candidates)) [
  | inr (res, e) ↦ inr (rw (choose, e) (best_match-IsUsable q candidates res e))
  | inl e ↦ elim (Bool-cases (q.fallback_policy == "any_existing")) [
    | inr f ↦ inl (rw (choose, e, f))
    | inl f ↦ elim (Option-cases (best_any_existing q candidates)) [
      | inl g ↦ inl (rw (choose, e, f, g))
      | inr (res, g) ↦ inr (
          rw (choose, e, f, g)
            (best_any_existing-IsUsable q candidates res
              ((eq_iff q.fallback_policy "any_existing").0 f) g))
    ]
  ]
]
