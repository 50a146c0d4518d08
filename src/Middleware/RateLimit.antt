-- ===== src/Middleware/RateLimit.antt =====
-- internal/middleware/ratelimit.go. Instants and durations are nanoseconds; each reading of the
-- clock is an argument. The mutex makes each method one step; log lines are left out.
pub mod Refill
pub mod Bounds
use resilient_settlement_orc.Base.{
  ℕ, suc, not, ◌*◌, ◌/◌, String, Bool, true, false, Option, none, some, List, [], ◌∷◌,
  if◌then◌else◌,
}
use resilient_settlement_orc.Base.Int.{ℤ, pos, negsuc, ◌+ℤ◌, ◌-ℤ◌, ltb_ℤ, leb_ℤ}
use resilient_settlement_orc.Base.Int64.{wrap64, add64, sub64}
use resilient_settlement_orc.Base.Dict.{Dict, lookup, insert, remove_if}
use resilient_settlement_orc.CircuitBreaker.{since}

pub record Bucket : Type 0 where
  pub tokens : ℤ
  pub last_fill : ℤ

pub record RateLimiter : Type 0 where
  pub visitors : Dict Bucket
  pub rate : ℤ
  pub interval : ℤ
  pub burst : ℤ

unfoldable pub new_rate_limiter : ℤ → ℤ → ℤ → RateLimiter
new_rate_limiter rate interval burst = record {
  visitors = [];
  rate = rate;
  interval = interval;
  burst = burst;
}

-- `elapsed / interval`, which rounds towards zero
abbrev magnitude : ℤ → ℕ
magnitude (pos n) = n
magnitude (negsuc n) = suc n

abbrev signed : Bool → ℕ → ℤ
signed negative n = if negative then pos 0 -ℤ pos n else pos n

abbrev is_negative : ℤ → Bool
is_negative (pos n) = false
is_negative (negsuc n) = true

abbrev differ : Bool → Bool → Bool
differ true b = not b
differ false b = b

unfoldable pub quotient : ℤ → ℤ → ℤ
quotient a b = signed (differ (is_negative a) (is_negative b)) (magnitude a / magnitude b)

-- The product of two int64.
unfoldable pub mul64 : ℤ → ℤ → ℤ
unfolding wrap64
mul64 a b = wrap64 (signed (differ (is_negative a) (is_negative b)) (magnitude a * magnitude b))

-- The bucket after the refill: `now` and `filled` are the two readings of the clock.
unfoldable pub refill : RateLimiter → ℤ → ℤ → Bucket → Bucket
refill rl now filled b =
    let amount = mul64 (quotient (since now b.last_fill) rl.interval) rl.rate in
    let tokens = add64 b.tokens amount in
    if ltb_ℤ (pos 0) amount
    then record { tokens = if ltb_ℤ rl.burst tokens then rl.burst else tokens; last_fill = filled }
    else b

abbrev pub take_token : Bucket → Bucket × Bool
take_token b =
    if leb_ℤ b.tokens (pos 0)
    then (b, false)
    else (record b { tokens = sub64 b.tokens (pos 1) }, true)

abbrev pub store : RateLimiter → String → Bucket × Bool → RateLimiter × Bool
store rl key (b, ok) = (record rl { visitors = insert key b rl.visitors }, ok)

abbrev pub allow_with : RateLimiter → ℤ → ℤ → String → Option Bucket → RateLimiter × Bool
allow_with rl now filled key none =
    store rl key (record { tokens = sub64 rl.burst (pos 1); last_fill = now }, true)
allow_with rl now filled key (some b) = store rl key (take_token (refill rl now filled b))

unfoldable pub allow : ℤ → ℤ → String → RateLimiter → RateLimiter × Bool
allow now filled key rl = allow_with rl now filled key (lookup key rl.visitors)

-- Ten minutes.
abbrev pub stale_after : ℤ
stale_after = pos 600_000_000_000

abbrev pub is_stale : ℤ → Bucket → Bool
is_stale cutoff b = ltb_ℤ b.last_fill cutoff

unfoldable pub cleanup : ℤ → RateLimiter → RateLimiter
cleanup now rl = record rl { visitors = remove_if (is_stale (now -ℤ stale_after)) rl.visitors }
