-- ===== src/Ratelimit/Tests.antt =====
-- A store that counts each key, for internal/ratelimit/, and the theorems on it.
use dreamchat_image_platform.Ratelimit.{after_hour, after_minute, hour_key}
use dreamchat_image_platform.Common.{
  ℕ, suc, ◌≤◌, String, ◌≡◌, refl, some, List, [], ◌∷◌, ◌==◌, if◌then◌else◌, arith, eq_iff, eq_refl,
  All, ◌≢◌, ◌+◌, ◌*◌, ◌/◌, ◌&&◌, nat_eq, ltb, inl, inr, ap, Bool-cases,
}
use dreamchat_image_platform.Ratelimit.{
  Store, Clock, Limits, Decision, decide, minute_key, allow, Principal,
}
use dreamchat_image_platform.Ratelimit.Windows.{CounterLaws, allowed_among, allowed_among-limit}

pub record Counters : Type 0 where
  pub at : ℕ
  pub counts : String → ℕ
  pub deadlines : String → ℕ

abbrev counters : Store Counters
counters = record {
  increment = λ k ttl s. (
    some (suc (s.counts k)),
    record {
      at = s.at;
      counts = λ j. if j == k then suc (s.counts k) else s.counts j;
      deadlines =
          λ j. if j == k && nat_eq (s.counts k) 0 then s.at + ttl * 1000000000 else s.deadlines j;
    },
  );
}

abbrev expire : ℕ → Counters → Counters
expire t s = record {
  at = t;
  counts = λ j. if ltb t (s.deadlines j) then s.counts j else 0;
  deadlines = s.deadlines;
}

abbrev clock : Clock
clock = record { format_minute = λ now. "202601010000"; format_hour = λ now. "2026010100" }

created_lem :
    (k : String) (ttl at : ℕ) (counts deadlines : String → ℕ)
    → counts k ≡ 0
    → (if k == k && nat_eq (counts k) 0 then at + ttl * 1000000000 else deadlines k)
      ≡ at + ttl * 1000000000
created_lem k ttl at counts deadlines h = ground (arith, eq_refl k)

kept_lem :
    (k j : String) (new : ℕ) (counts deadlines : String → ℕ)
    → counts j ≢ 0
    → (if j == k && nat_eq (counts k) 0 then new else deadlines j) ≡ deadlines j
kept_lem k j new counts deadlines h = elim (Bool-cases (j == k)) [
  | inl e ↦ let same : counts j ≡ counts k = ap counts ((eq_iff j k).0 e) in ground arith
  | inr e ↦ rw e refl
]

abbrev counter_laws : CounterLaws counters expire
counter_laws = record {
  time = λ s. s.at;
  count = λ s k. s.counts k;
  deadline = λ s k. s.deadlines k;
  pass_time = λ t s. refl;
  pass_live = λ t s k h. (ground arith, refl);
  pass_absent = λ t s k h. ground arith;
  monotone = λ k ttl s j. ground (arith, eq_iff j k);
  counted = λ k ttl s n h. ground (arith, eq_refl k);
  created = λ k ttl s h. inr (created_lem k ttl s.at s.counts s.deadlines h);
  kept = λ k ttl s j h. kept_lem k j (s.at + ttl * 1000000000) s.counts s.deadlines h;
}

abbrev limits : Limits
limits = record { requests_per_minute = 2; requests_per_hour = 1000 }

abbrev none_yet : Counters
none_yet = record { at = 0; counts = λ k. 0; deadlines = λ k. 0 }

abbrev instants : List ℕ
instants = 1 ∷ 2 ∷ 3 ∷ []

-- Of three requests in a minute two are allowed.
two_allowed : allowed_among counters clock expire "token" limits instants none_yet ≡ 2
unfolding allowed_among allow after_minute after_hour decide hour_key minute_key
two_allowed = refl

same_minute :
    All
      (λ now. (minute_key clock "token" now ≡ minute_key clock "token" 0) × (now / 60000000000 ≡ 0))
      instants
unfolding minute_key
same_minute = ((refl, refl), ((refl, refl), ((refl, refl), tt)))

allowed_among-limit_example :
    allowed_among counters clock expire "token" limits instants none_yet ≤ 2
allowed_among-limit_example =
    allowed_among-limit counters clock expire counter_laws "token" limits
      (minute_key clock "token" 0) 0 instants none_yet same_minute (inl refl)

abbrev principal : Principal
principal = record { token_id = "token"; limits = limits }

abbrev late : Decision
late = decide 1 limits 3 3
