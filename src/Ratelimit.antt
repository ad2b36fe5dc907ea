-- ===== src/Ratelimit.antt =====
-- internal/ratelimit/ratelimit.go and middleware.go: the fixed-window request limits of a token.
--
-- An instant is a number of nanoseconds since the Unix epoch; limits and counts are natural numbers.
-- The backing store is a parameter: its state, and an increment that may fail.
pub mod Windows
mod Tests
use dreamchat_image_platform.Common.{
  ℕ, ◌+◌, ◌-◌, ◌*◌, ◌/◌, String, Bool, true, false, not, ◌&&◌, ◌||◌, Option, none, some, List, [],
  ◌∷◌, ltb, if◌then◌else◌,
}
use Prim.Native.String.{◌++◌}

-- Store: the post-increment count, or an error, and what the store is afterwards. The second argument
-- is the time to live in seconds.
pub record Store (S : Type 0) : Type 0 where
  pub increment : String → ℕ → S → Option ℕ × S

-- `t.Format` with the layouts "200601021504" and "2006010215", which the standard library computes.
pub record Clock : Type 0 where
  pub format_minute : ℕ → String
  pub format_hour : ℕ → String

pub record Limits : Type 0 where
  pub requests_per_minute : ℕ
  pub requests_per_hour : ℕ

pub record WindowResult : Type 0 where
  pub limit : ℕ
  pub remaining : ℕ
  pub reset : ℕ

pub record Decision : Type 0 where
  pub allowed : Bool
  pub minute : WindowResult
  pub hour : WindowResult
  pub retry_after : ℕ

abbrev pub unix : ℕ → ℕ
unix now = now / 1000000000

-- now.Truncate(time.Minute).Add(time.Minute).Unix()
abbrev pub minute_reset : ℕ → ℕ
minute_reset now = (now / 60000000000 + 1) * 60

abbrev pub hour_reset : ℕ → ℕ
hour_reset now = (now / 3600000000000 + 1) * 3600

-- A negative difference is reported as 0, which the subtraction of ℕ gives.
abbrev pub remaining_of : ℕ → ℕ → ℕ
remaining_of limit count = limit - count

unfoldable pub minute_key : Clock → String → ℕ → String
minute_key clock token now = "rate_limit:token:" ++ token ++ ":rpm:" ++ clock.format_minute now

unfoldable pub hour_key : Clock → String → ℕ → String
hour_key clock token now = "rate_limit:token:" ++ token ++ ":rph:" ++ clock.format_hour now

abbrev pub at_least_one : ℕ → ℕ
at_least_one n = if ltb n 1 then 1 else n

-- The part of `Allow` after both increments.
unfoldable pub decide : ℕ → Limits → ℕ → ℕ → Decision
decide now limits minute_count hour_count =
    let over_minute = ltb limits.requests_per_minute minute_count in
    let over_hour = ltb limits.requests_per_hour hour_count in
    let allowed = not over_minute && not over_hour in
    record {
      allowed = allowed;
      minute = record {
        limit = limits.requests_per_minute;
        remaining = remaining_of limits.requests_per_minute minute_count;
        reset = minute_reset now;
      };
      hour = record {
        limit = limits.requests_per_hour;
        remaining = remaining_of limits.requests_per_hour hour_count;
        reset = hour_reset now;
      };
      retry_after =
          if not allowed
          then at_least_one ((if over_hour then hour_reset now else minute_reset now) - unix now)
          else 0;
    }

-- What `Allow` returns after the second increment; `none` is the store's error.
unfoldable pub after_hour : {S : Type 0} → ℕ → Limits → ℕ → Option ℕ × S → Option Decision × S
after_hour now limits minute_count (none, s) = (none, s)
after_hour now limits minute_count (some hour_count, s) =
    (some (decide now limits minute_count hour_count), s)

module _ {S : Type 0} (store : Store S) (clock : Clock) where
  unfoldable pub after_minute : ℕ → String → Limits → Option ℕ × S → Option Decision × S
  after_minute now token limits (none, s) = (none, s)
  after_minute now token limits (some minute_count, s) =
      after_hour now limits minute_count (store.increment (hour_key clock token now) 3600 s)

  unfoldable pub allow : ℕ → String → Limits → S → Option Decision × S
  allow now token limits s =
      after_minute now token limits (store.increment (minute_key clock token now) 60 s)

pub record Principal : Type 0 where
  pub token_id : String
  pub limits : Limits

-- What a request meets: the next handler, with or without the rate-limit headers, or a 429.
pub data Response : Type 0 where
  served : Option Decision → Response
  too_many_requests : Decision → Response

-- The store's error lets the request pass, without headers.
unfoldable pub respond : {S : Type 0} → Option Decision × S → Response × S
respond (none, s) = (served none, s)
respond (some d, s) = (if not d.allowed then too_many_requests d else served (some d), s)

-- The limiter is `none` where it is disabled.
unfoldable pub middleware :
    {S : Type 0} → Option (Store S) → Clock → ℕ → Option Principal → S → Response × S
middleware none clock now principal s = (served none, s)
middleware (some store) clock now none s = (served none, s)
middleware (some store) clock now (some p) s = respond (allow store clock now p.token_id p.limits s)
