-- ===== src/Ratelimit/Windows.antt =====
-- The limits that `Allow` of internal/ratelimit/ratelimit.go keeps within one window.
use dreamchat_image_platform.Common.{
  ℕ, ◌+◌, ◌-◌, ◌≤◌, ◌<◌, String, ◌≡◌, refl, ◌↔◌, ◌⊎◌, ◌≢◌, ◌∙◌, sym, inr, nat_eq, Bool-cases, ◌*◌,
  ◌/◌, Bool, true, false, not, ◌&&◌, Option, none, some, List, [], ◌∷◌, All, if◌then◌else◌, ltb,
  arith, inl, subst,
}
use dreamchat_image_platform.Ratelimit.{
  Store, Clock, Limits, Decision, decide, minute_key, hour_key, allow, after_hour, after_minute,
  middleware, Principal, too_many_requests, respond, at_least_one, unix, minute_reset, hour_reset,
}

-- What Store documents of its counters, with what time does to them: a key counts 0 before it is created
-- and after it has expired. `pass t` is the store at the instant t, in nanoseconds, by the clock that the
-- limiter reads. An increment counts one more, and sets the time to live of a key that it creates and of
-- no other; one that fails may have counted.
pub record CounterLaws {S : Type 0} (store : Store S) (pass : ℕ → S → S) : Type 0 where
  pub time : S → ℕ
  pub count : S → String → ℕ
  pub deadline : S → String → ℕ
  pub pass_time : (t : ℕ) (s : S) → time (pass t s) ≡ t
  pub pass_live :
      (t : ℕ) (s : S) (k : String)
      → t < deadline s k
      → (count (pass t s) k ≡ count s k) × (deadline (pass t s) k ≡ deadline s k)
  pub pass_absent : (t : ℕ) (s : S) (k : String) → count s k ≡ 0 → count (pass t s) k ≡ 0
  pub monotone :
      (k : String) (ttl : ℕ) (s : S) (j : String) → count s j ≤ count (store.increment k ttl s).1 j
  pub counted :
      (k : String) (ttl : ℕ) (s : S) (n : ℕ)
      → (store.increment k ttl s).0 ≡ some n
      → (count s k < n) × (n ≤ count (store.increment k ttl s).1 k)
  pub created :
      (k : String) (ttl : ℕ) (s : S)
      → count s k ≡ 0
      → (count (store.increment k ttl s).1 k ≡ 0)
        ⊎ (deadline (store.increment k ttl s).1 k ≡ time s + ttl * 1000000000)
  pub kept :
      (k : String) (ttl : ℕ) (s : S) (j : String)
      → count s j ≢ 0
      → deadline (store.increment k ttl s).1 j ≡ deadline s j

abbrev pub was_allowed : Option Decision → Bool
was_allowed none = false
was_allowed (some d) = d.allowed

module _ {S : Type 0} (store : Store S) (clock : Clock) (pass : ℕ → S → S) where
  -- How many of the requests of a token, at the given instants, are allowed.
  unfoldable pub allowed_among : String → Limits → List ℕ → S → ℕ
  allowed_among token limits [] s = 0
  allowed_among token limits (now ∷ nows) s =
      let here = allow store clock now token limits (pass now s) in
      (if was_allowed here.0 then 1 else 0) + allowed_among token limits nows here.1

module _ {S : Type 0} (store : Store S) (clock : Clock) (pass : ℕ → S → S)
    (laws : CounterLaws store pass) where
  -- An error, or a decision from a count that the store had not yet reached.
  hour-count :
      (now n : ℕ) (limits : Limits) (k : String) (s s' : S)
      → laws.count s k < n
      → n ≤ laws.count s' k
      → (p : Option ℕ × S) → laws.count s' k ≤ laws.count p.1 k
      → (laws.count s k ≤ laws.count (after_hour now limits n p).1 k)
        × ((was_allowed (after_hour now limits n p).0 ≡ false)
            ⊎ ((laws.count s k < laws.count (after_hour now limits n p).1 k)
                × (laws.count s k < limits.requests_per_minute)))
  unfolding after_hour decide
  hour-count now n limits k s s' h l (none, t) m = (omega arith, inl refl)
  hour-count now n limits k s s' h l (some hours, t) m = (omega arith, ground arith)

  minute-count :
      (now : ℕ) (token : String) (limits : Limits) (k : String) (s : S)
      → (p : Option ℕ × S)
      → ((n : ℕ) → p.0 ≡ some n → (laws.count s k < n) × (n ≤ laws.count p.1 k))
      → laws.count s k ≤ laws.count p.1 k
      → let q = after_minute store clock now token limits p in
        (laws.count s k ≤ laws.count q.1 k)
        × ((was_allowed q.0 ≡ false)
            ⊎ ((laws.count s k < laws.count q.1 k) × (laws.count s k < limits.requests_per_minute)))
  unfolding after_minute
  minute-count now token limits k s (none, t) c m = (m, inl refl)
  minute-count now token limits k s (some n, t) c m =
      let (above, reached) = c n refl in
      hour-count now n limits k s t above reached
        (store.increment (hour_key clock token now) 3600 t)
        (laws.monotone (hour_key clock token now) 3600 t k)

  allow-count :
      (now : ℕ) (token : String) (limits : Limits) (s : S)
      → let q = allow store clock now token limits s in
        let k = minute_key clock token now in
        (laws.count s k ≤ laws.count q.1 k)
        × ((was_allowed q.0 ≡ false)
            ⊎ ((laws.count s k < laws.count q.1 k) × (laws.count s k < limits.requests_per_minute)))
  unfolding allow
  allow-count now token limits s =
      let k = minute_key clock token now in
      minute-count now token limits k s (store.increment k 60 s) (laws.counted k 60 s)
        (laws.monotone k 60 s k)

  -- The counter of a key lives to the end of a window, or is yet to be created.
  abbrev pub Lasts : String → ℕ → S → Type 0
  Lasts k end s = (laws.count s k ≡ 0) ⊎ (end ≤ laws.deadline s k)

  pass-Lasts :
      (k : String) (end now : ℕ) (s : S)
      → now < end
      → Lasts k end s
      → (laws.count (pass now s) k ≡ laws.count s k) × Lasts k end (pass now s)
  pass-Lasts k end now s h (inl absent) =
      let still = laws.pass_absent now s k absent in (still ∙ sym absent, inl still)
  pass-Lasts k end now s h (inr lasts) =
      let (same, ends) = laws.pass_live now s k (omega arith) in (same, inr (rw ends lasts))

  -- The increment of the minute's key.
  increment-Lasts :
      (k : String) (end : ℕ) (s : S)
      → end ≤ laws.time s + 60 * 1000000000
      → Lasts k end s
      → Lasts k end (store.increment k 60 s).1
  increment-Lasts k end s h l = elim (Bool-cases (nat_eq (laws.count s k) 0)) [
    | inl e ↦ elim (laws.created k 60 s (ground arith)) [
      | inl absent ↦ inl absent
      | inr ends ↦ inr (rw ends h)
    ]
    | inr e ↦
        let there : laws.count s k ≢ 0 = λ q. ground arith in
        let same = laws.kept k 60 s k there in
        elim l [ inl absent ↦ absurd (there absent) | inr lasts ↦ inr (rw same lasts) ]
  ]

  -- The increment of any key, once the minute's is there.
  later-Lasts :
      (k j : String) (ttl end : ℕ) (s : S)
      → laws.count s k ≢ 0
      → Lasts k end s
      → Lasts k end (store.increment j ttl s).1
  later-Lasts k j ttl end s there (inl absent) = absurd (there absent)
  later-Lasts k j ttl end s there (inr lasts) = inr (rw (laws.kept j ttl s k there) lasts)

  after_hour-Lasts :
      (now n : ℕ) (limits : Limits) (k : String) (end : ℕ) (p : Option ℕ × S)
      → Lasts k end p.1
      → Lasts k end (after_hour now limits n p).1
  unfolding after_hour
  after_hour-Lasts now n limits k end (none, t) l = l
  after_hour-Lasts now n limits k end (some hours, t) l = l

  after_minute-Lasts :
      (now : ℕ) (token : String) (limits : Limits) (k : String) (end : ℕ) (p : Option ℕ × S)
      → ((n : ℕ) → p.0 ≡ some n → laws.count p.1 k ≢ 0)
      → Lasts k end p.1
      → Lasts k end (after_minute store clock now token limits p).1
  unfolding after_minute
  after_minute-Lasts now token limits k end (none, t) there l = l
  after_minute-Lasts now token limits k end (some n, t) there l =
      after_hour-Lasts now n limits k end (store.increment (hour_key clock token now) 3600 t)
        (later-Lasts k (hour_key clock token now) 3600 end t (there n refl) l)

  allow-Lasts :
      (now : ℕ) (token : String) (limits : Limits) (end : ℕ) (s : S)
      → end ≤ laws.time s + 60 * 1000000000
      → Lasts (minute_key clock token now) end s
      → Lasts (minute_key clock token now) end (allow store clock now token limits s).1
  unfolding allow
  allow-Lasts now token limits end s h l =
      let k = minute_key clock token now in
      after_minute-Lasts now token limits k end (store.increment k 60 s)
        (λ n e q. let (a, b) = laws.counted k 60 s n e in omega arith) (increment-Lasts k end s h l)

  -- Of a token's requests at instants of one minute, no more are allowed than the minute limit leaves
  -- above the count that the store holds before them, where the store keeps its counter laws and its
  -- counter of that minute, if it has one, does not expire before the minute ends; a request on which the
  -- store fails is not among them.
  pub allowed_among-limit :
      (token : String) (limits : Limits) (k : String) (minute : ℕ) (nows : List ℕ) (s : S)
      → All (λ now. (minute_key clock token now ≡ k) × (now / 60000000000 ≡ minute)) nows
      → Lasts k ((minute + 1) * 60000000000) s
      → allowed_among store clock pass token limits nows s
        ≤ limits.requests_per_minute - laws.count s k
  unfolding allowed_among
  allowed_among-limit token limits k minute [] s same l = omega arith
  allowed_among-limit token limits k minute (now ∷ nows) s ((here, within), later) l =
      let end = (minute + 1) * 60000000000 in
      let p = pass now s in
      let q = allow store clock now token limits p in
      let (unchanged, lasts) = pass-Lasts k end now s (omega arith) l in
      let still : Lasts k end q.1 =
        subst (λ j. Lasts j end q.1) here
          (allow-Lasts now token limits end p (rw (laws.pass_time now s) (omega arith))
            (subst (λ j. Lasts j end p) (sym here) lasts)) in
      let rest = allowed_among-limit token limits k minute nows q.1 later still in
      let (grows, cases) =
        subst
          (λ j.
            (laws.count p j ≤ laws.count q.1 j)
            × ((was_allowed q.0 ≡ false)
                ⊎ ((laws.count p j < laws.count q.1 j)
                    × (laws.count p j < limits.requests_per_minute))))
          here (allow-count now token limits p) in
      let before : laws.count s k ≡ laws.count p k = sym unchanged in rw before (ground arith)

wait_minute : (now : ℕ) → (unix now < minute_reset now) × (minute_reset now ≤ unix now + 60)
wait_minute now = omega arith

wait_hour : (now : ℕ) → (unix now < hour_reset now) × (hour_reset now ≤ unix now + 3600)
wait_hour now = omega arith

-- The decision, by the second and the two resets.
waits :
    (now : ℕ) (limits : Limits) (minutes hours u m h : ℕ)
    → u < m
    → m ≤ u + 60
    → u < h
    → h ≤ u + 3600
    → let over_hour = ltb limits.requests_per_hour hours in
      let allowed = not (ltb limits.requests_per_minute minutes) && not over_hour in
      let wait = if not allowed then at_least_one ((if over_hour then h else m) - u) else 0 in
      ((allowed ≡ true)
        × (minutes ≤ limits.requests_per_minute)
        × (hours ≤ limits.requests_per_hour))
      ⊎ ((allowed ≡ false) × (u + wait ≡ (if over_hour then h else m)) × (1 ≤ wait) × (wait ≤ 3600))
waits now limits minutes hours u m h a b c d = ground arith

-- A request is allowed exactly if neither count exceeds its limit; one that is denied is told to wait
-- to the very second at which the blocking window resets (the hour's where its limit is exceeded),
-- between one second and an hour.
pub decide_lem :
    (now : ℕ) (limits : Limits) (minutes hours : ℕ)
    → let d = decide now limits minutes hours in
      ((d.allowed ≡ true)
        × (minutes ≤ limits.requests_per_minute)
        × (hours ≤ limits.requests_per_hour))
      ⊎ ((d.allowed ≡ false)
          × (unix now + d.retry_after
              ≡ (if ltb limits.requests_per_hour hours then hour_reset now else minute_reset now))
          × (1 ≤ d.retry_after)
          × (d.retry_after ≤ 3600))
unfolding decide
decide_lem now limits minutes hours =
    let (a, b) = wait_minute now in
    let (c, d) = wait_hour now in
    waits now limits minutes hours (unix now) (minute_reset now) (hour_reset now) a b c d

respond_iff :
    {S : Type 0} (p : Option Decision × S) (d : Decision)
    → ((respond p).0 ≡ too_many_requests d) ↔ ((p.0 ≡ some d) × (d.allowed ≡ false))
unfolding respond
respond_iff (none, s) d = ((λ h. cc), λ h. cc (h.0))
respond_iff (some e, s) d = (λ h. ground arith, λ h. ground arith)

-- The middleware answers 429 exactly with a decision of `Allow` that denies: a store error, a missing
-- principal and a disabled limiter let the request pass.
pub middleware_rejects :
    {S : Type 0} (limiter : Option (Store S)) (clock : Clock) (now : ℕ)
    (principal : Option Principal) (s : S) (d : Decision)
    → ((middleware limiter clock now principal s).0 ≡ too_many_requests d) ↔ (
        (store : Store S) × (p : Principal) × (limiter ≡ some store)
        × (principal ≡ some p)
        × ((allow store clock now p.token_id p.limits s).0 ≡ some d)
        × (d.allowed ≡ false))
unfolding middleware
middleware_rejects none clock now principal s d = ((λ h. cc), λ (st, p, e, _, _, _). cc)
middleware_rejects (some store) clock now none s d = ((λ h. cc), λ (st, p, _, e, _, _). cc)
middleware_rejects {S = S} (some store) clock now (some p) s d = (forward, backward)
  where
    forward :
        (respond (allow store clock now p.token_id p.limits s)).0 ≡ too_many_requests d
        → (st : Store S) × (q : Principal) × (some store ≡ some st)
          × (some p ≡ some q)
          × ((allow st clock now q.token_id q.limits s).0 ≡ some d)
          × (d.allowed ≡ false)
    forward h =
        let (a, b) = (respond_iff (allow store clock now p.token_id p.limits s) d).0 h in
        (store, p, refl, refl, a, b)

    backward :
        (st : Store S) × (q : Principal) × (some store ≡ some st)
          × (some p ≡ some q)
          × ((allow st clock now q.token_id q.limits s).0 ≡ some d)
          × (d.allowed ≡ false)
        → (respond (allow store clock now p.token_id p.limits s)).0 ≡ too_many_requests d
    backward (st, q, e, f, a, b) =
        let e' : st ≡ store = cc in
        let f' : q ≡ p = cc in
        (respond_iff (allow store clock now p.token_id p.limits s) d).1 (
          subst (λ x. (allow store clock now x.token_id x.limits s).0 ≡ some d) f'
              (subst (λ x. (allow x clock now q.token_id q.limits s).0 ≡ some d) e' a),
          b,
        )
