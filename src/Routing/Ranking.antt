-- ===== src/Routing/Ranking.antt =====
-- `ranksBefore` of internal/providers/routing/routing.go is the lexicographic composition of the
-- orders that its comment lists, so it is a strict weak order for every request, and total on routes
-- of different ids.
use dreamchat_image_platform.Common.{
  ℕ, String, ◌≡◌, refl, Bool, true, false, not, ◌&&◌, Option, none, some, ◌==◌, ◌!=◌, ltb,
  if◌then◌else◌, eq_iff, arith,
}
use dreamchat_image_platform.Common.Int.{ℤ, ltb_ℤ, eqb_ℤ, ltb_ℤ-IsStrictWeak}
use dreamchat_image_platform.Common.Order.{
  IsStrictWeak, lex, by_key, by_key-IsStrictWeak, lex-IsStrictWeak, true_first,
  true_first-IsStrictWeak, irreflexive, IsStrictWeak-of_eq, lex_undecided,
}
use dreamchat_image_platform.Common.Texts.{text_lt, text_lt-IsStrictWeak, text_lt_total}
use dreamchat_image_platform.Providers.{is_identity_axis_capability}
use dreamchat_image_platform.Routing.{
  Route, ResolveRequest, quality_tier_rank, rank_by_price, rank_by_quality, tie_break, ranks_before,
  differ,
}

-- A price comes before none, a lower price before a higher one.
abbrev price_lt : Option ℤ → Option ℤ → Bool
price_lt none q = false
price_lt (some p) none = true
price_lt (some p) (some q) = ltb_ℤ p q

price_lt-IsStrictWeak : IsStrictWeak price_lt
price_lt-IsStrictWeak = record { asym = asym; neg_trans = neg_trans }
  where
    asym : (p q : Option ℤ) → price_lt p q ≡ true → price_lt q p ≡ false
    asym none q h = cc
    asym (some p) none h = refl
    asym (some p) (some q) h = ltb_ℤ-IsStrictWeak.asym p q h

    neg_trans :
        (p q r : Option ℤ) → price_lt p q ≡ false → price_lt q r ≡ false → price_lt p r ≡ false
    neg_trans none q r h k = refl
    neg_trans (some p) none r h k = cc
    neg_trans (some p) (some q) none h k = cc
    neg_trans (some p) (some q) (some r) h k = ltb_ℤ-IsStrictWeak.neg_trans p q r h k

-- Higher first.
abbrev higher : ℕ → ℕ → Bool
higher a b = ltb b a

higher-IsStrictWeak : IsStrictWeak higher
higher-IsStrictWeak = record { asym = λ a b h. ground arith; neg_trans = λ a b c h k. ground arith }

abbrev tier_of : Route → ℕ
tier_of rt = quality_tier_rank rt.quality_tier

abbrev axis_of : Route → Bool
axis_of rt = is_identity_axis_capability rt.required_capability

abbrev quality_lt : Route → Route → Bool
quality_lt = lex (by_key tier_of higher) (by_key axis_of true_first)

abbrev price_of : Route → Option ℤ
price_of rt = rt.price

abbrev by_price : Route → Route → Bool
by_price = by_key price_of price_lt

-- The order of the request's intent.
abbrev intent_lt : ResolveRequest → Route → Route → Bool
intent_lt req a b =
    if req.intent == "draft"
    then by_price a b
    else if req.intent == "commit"
    then quality_lt a b
    else false

abbrev latency_of : ResolveRequest → Route → Bool
latency_of req rt = req.latency_tier != "" && rt.latency_tier == req.latency_tier

abbrev preference_of : ResolveRequest → Route → Bool
preference_of req rt = req.provider_preference != "" && rt.provider_id == req.provider_preference

abbrev priority_of : Route → ℤ
priority_of rt = rt.priority

abbrev provider_of : Route → String
provider_of rt = rt.provider_id

abbrev model_of : Route → String
model_of rt = rt.model_id

abbrev id_of : Route → String
id_of rt = rt.route_id

abbrev ids_lt : Route → Route → Bool
ids_lt = lex (by_key provider_of text_lt) (lex (by_key model_of text_lt) (by_key id_of text_lt))

abbrev tie_lt : ResolveRequest → Route → Route → Bool
tie_lt req =
    lex (by_key (latency_of req) true_first)
      (lex (by_key (preference_of req) true_first) (lex (by_key priority_of ltb_ℤ) ids_lt))

-- The documented precedence, as a composition of orders.
abbrev pub documented_order : ResolveRequest → Route → Route → Bool
documented_order req = lex (intent_lt req) (tie_lt req)

price-IsStrictWeak : IsStrictWeak by_price
price-IsStrictWeak = by_key-IsStrictWeak price_of price_lt price_lt-IsStrictWeak

quality-IsStrictWeak : IsStrictWeak quality_lt
quality-IsStrictWeak =
    lex-IsStrictWeak (by_key tier_of higher) (by_key axis_of true_first)
      (by_key-IsStrictWeak tier_of higher higher-IsStrictWeak)
      (by_key-IsStrictWeak axis_of true_first true_first-IsStrictWeak)

intent-IsStrictWeak : (req : ResolveRequest) → IsStrictWeak (intent_lt req)
intent-IsStrictWeak req = record {
  asym = λ a b h. ground (arith, price-IsStrictWeak.asym a b, quality-IsStrictWeak.asym a b);
  neg_trans = λ a b c h k.
      ground (arith, price-IsStrictWeak.neg_trans a b c, quality-IsStrictWeak.neg_trans a b c);
}

by_text : (key : Route → String) → IsStrictWeak (by_key key text_lt)
by_text key = by_key-IsStrictWeak key text_lt text_lt-IsStrictWeak

by_flag : (key : Route → Bool) → IsStrictWeak (by_key key true_first)
by_flag key = by_key-IsStrictWeak key true_first true_first-IsStrictWeak

ids-IsStrictWeak : IsStrictWeak ids_lt
ids-IsStrictWeak =
    lex-IsStrictWeak (by_key provider_of text_lt)
      (lex (by_key model_of text_lt) (by_key id_of text_lt)) (by_text provider_of)
      (lex-IsStrictWeak (by_key model_of text_lt) (by_key id_of text_lt) (by_text model_of)
        (by_text id_of))

tie-IsStrictWeak : (req : ResolveRequest) → IsStrictWeak (tie_lt req)
tie-IsStrictWeak req =
    lex-IsStrictWeak (by_key (latency_of req) true_first)
      (lex (by_key (preference_of req) true_first) (lex (by_key priority_of ltb_ℤ) ids_lt))
      (by_flag (latency_of req))
      (lex-IsStrictWeak (by_key (preference_of req) true_first)
        (lex (by_key priority_of ltb_ℤ) ids_lt) (by_flag (preference_of req))
        (lex-IsStrictWeak (by_key priority_of ltb_ℤ) ids_lt
          (by_key-IsStrictWeak priority_of ltb_ℤ ltb_ℤ-IsStrictWeak) ids-IsStrictWeak))

documented_order-IsStrictWeak : (req : ResolveRequest) → IsStrictWeak (documented_order req)
documented_order-IsStrictWeak req =
    lex-IsStrictWeak (intent_lt req) (tie_lt req) (intent-IsStrictWeak req) (tie-IsStrictWeak req)

-- `if s != t { return s < t }; return rest`, as a composition.
text_step :
    (s t : String) (rest : Bool)
    → (if s != t then text_lt s t else rest)
      ≡ (if text_lt s t then true else if text_lt t s then false else rest)
text_step s t rest = ground (
  arith,
  eq_iff s t,
  text_lt-IsStrictWeak.asym s t,
  text_lt_total s t,
  irreflexive text_lt text_lt-IsStrictWeak s,
)

-- The same step over a flag that is read only where the request asks for it.
flag_step :
    (wanted x y rest : Bool)
    → (if wanted && differ x y then x else rest) ≡ (
        if (wanted && x) && not (wanted && y)
        then true
        else if (wanted && y) && not (wanted && x)
        then false
        else rest)
flag_step wanted x y rest = ground arith

int_step :
    (x y : ℤ) (rest : Bool)
    → (if not (eqb_ℤ x y) then ltb_ℤ x y else rest)
      ≡ (if ltb_ℤ x y then true else if ltb_ℤ y x then false else rest)
int_step x y rest = ground arith

tie_break_lem : (a b : Route) (req : ResolveRequest) → tie_break a b req ≡ tie_lt req a b
unfolding tie_break
tie_break_lem a b req =
    rw (flag_step _ _ _ _, flag_step _ _ _ _, int_step _ _ _, text_step _ _ _, text_step _ _ _)
      (ground arith)

price_step :
    (p q : Option ℤ) (rest : Bool)
    → elim (rank_by_price p q) [ some first ↦ first | none ↦ rest ]
      ≡ (if price_lt p q then true else if price_lt q p then false else rest)
unfolding rank_by_price
price_step none none rest = refl
price_step none (some q) rest = refl
price_step (some p) none rest = refl
price_step (some p) (some q) rest = ground arith

quality_step :
    (a b : Route) (rest : Bool)
    → elim (rank_by_quality a b) [ some first ↦ first | none ↦ rest ]
      ≡ (if quality_lt a b then true else if quality_lt b a then false else rest)
unfolding rank_by_quality
quality_step a b rest = ground arith

-- `ranksBefore` is the documented precedence: intent, latency, preference, priority, ids.
pub ranks_before_lem :
    (a b : Route) (req : ResolveRequest) → ranks_before a b req ≡ documented_order req a b
unfolding ranks_before
ranks_before_lem a b req = ground (
  arith,
  tie_break_lem a b req,
  price_step a.price b.price (tie_lt req a b),
  quality_step a b (tie_lt req a b),
)

-- For every request `ranks_before` is asymmetric, and not ranking before is transitive: a strict weak
-- order.
pub ranks_before-IsStrictWeak : (req : ResolveRequest) → IsStrictWeak (λ a b. ranks_before a b req)
ranks_before-IsStrictWeak req =
    IsStrictWeak-of_eq (λ a b. ranks_before a b req) (documented_order req)
      (λ a b. ranks_before_lem a b req) (documented_order-IsStrictWeak req)

-- Two routes neither of which ranks before the other have the same provider, model and route id.
pub ranks_before_total :
    (a b : Route) (req : ResolveRequest)
    → ranks_before a b req ≡ false
    → ranks_before b a req ≡ false
    → (a.provider_id ≡ b.provider_id) × (a.model_id ≡ b.model_id) × (a.route_id ≡ b.route_id)
ranks_before_total a b req h k =
    let h' : documented_order req a b ≡ false = rw (ranks_before_lem a b req) at h in
    let k' : documented_order req b a ≡ false = rw (ranks_before_lem b a req) at k in
    let tie = (lex_undecided (intent_lt req) (tie_lt req) a b h' k').1 in
    let (_, after) =
      lex_undecided (by_key (latency_of req) true_first)
        (lex (by_key (preference_of req) true_first) (lex (by_key priority_of ltb_ℤ) ids_lt)) a b
        tie.0 tie.1 in
    let (_, last) =
      lex_undecided (by_key (preference_of req) true_first) (lex (by_key priority_of ltb_ℤ) ids_lt)
        a b after.0 after.1 in
    let (_, ids) = lex_undecided (by_key priority_of ltb_ℤ) ids_lt a b last.0 last.1 in
    let (p, rest) =
      lex_undecided (by_key provider_of text_lt)
        (lex (by_key model_of text_lt) (by_key id_of text_lt)) a b ids.0 ids.1 in
    let (m, i) = lex_undecided (by_key model_of text_lt) (by_key id_of text_lt) a b rest.0 rest.1 in
    (text_lt_total _ _ p.0 p.1, text_lt_total _ _ m.0 m.1, text_lt_total _ _ i.0 i.1)
