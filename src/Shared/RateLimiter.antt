-- ===== src/Shared/RateLimiter.antt =====
-- `RateLimiter` of packages/shared/src/ratelimit/RateLimiter.ts, a token bucket for each key. Tokens are counted
-- in thousandths, which a millisecond refills by whole numbers where the rate is one: the rounding of the
-- floating point numbers is left out. Capacity, rate and costs are natural numbers.
pub mod Budget
mod Examples
use mcp_suite.Common.{
  ℕ, ◌+◌, ◌-◌, ◌*◌, ◌/◌, String, Bool, true, false, Option, none, some, ltb, leb, if◌then◌else◌,
  or_else, ◌==◌,
}

pub record RateLimitState : Type 0 where
  pub tokens : ℕ
  pub capacity : ℕ
  pub refill_rate_per_second : ℕ
  -- `none` is Infinity, of a rate of nothing.
  pub retry_after_ms : Option ℕ

pub record BucketState : Type 0 where
  pub tokens : ℕ
  pub last_refill_at : ℕ

pub record RateLimiter : Type 0 where
  pub capacity : ℕ
  pub refill_rate_per_second : ℕ
  pub buckets : String → Option BucketState

abbrev pub new_rate_limiter : ℕ → ℕ → RateLimiter
new_rate_limiter capacity rate = record {
  capacity = capacity;
  refill_rate_per_second = rate;
  buckets = λ _. none;
}

abbrev pub set_bucket : String → Option BucketState → RateLimiter → RateLimiter
set_bucket key bucket s = record s {
  buckets = λ other. if key == other then bucket else s.buckets other;
}

abbrev pub min : ℕ → ℕ → ℕ
min a b = if leb a b then a else b

-- The bucket at a time: a clock that ran back refills nothing.
abbrev pub refilled : ℕ → String → RateLimiter → BucketState
refilled current_time key s =
    let existing : BucketState =
      or_else (s.buckets key)
        (record { tokens = s.capacity * 1000; last_refill_at = current_time }) in
    record {
      tokens =
          min (s.capacity * 1000)
            (existing.tokens + (current_time - existing.last_refill_at) * s.refill_rate_per_second);
      last_refill_at = current_time;
    }

unfoldable pub get_bucket : ℕ → String → RateLimiter → BucketState × RateLimiter
get_bucket current_time key s =
    let next_state : BucketState = refilled current_time key s in
    (next_state, set_bucket key (some next_state) s)

-- Thousandths are divided by tokens a second, which gives milliseconds, rounded up.
abbrev pub compute_retry_after_ms : ℕ → RateLimiter → Option ℕ
compute_retry_after_ms tokens s =
    let missing_tokens : ℕ = 1000 - tokens in
    let rate : ℕ = s.refill_rate_per_second in
    if leb missing_tokens 0
    then some 0
    else (if leb rate 0 then none else some ((missing_tokens + (rate - 1)) / rate))

unfoldable pub peek : ℕ → String → RateLimiter → RateLimitState × RateLimiter
peek current_time key s =
    let (bucket, after) = get_bucket current_time key s in
    (
      record {
        tokens = bucket.tokens;
        capacity = s.capacity;
        refill_rate_per_second = s.refill_rate_per_second;
        retry_after_ms =
            if leb 1000 bucket.tokens then some 0 else compute_retry_after_ms bucket.tokens s;
      },
      after,
    )

abbrev pub take_tokens : String → ℕ → BucketState → RateLimiter → RateLimiter
take_tokens key cost bucket s =
    set_bucket key (some (record bucket { tokens = bucket.tokens - cost * 1000 })) s

unfoldable pub consume : ℕ → String → ℕ → RateLimiter → Bool × RateLimiter
consume current_time key cost s =
    let (bucket, after) = get_bucket current_time key s in
    if ltb bucket.tokens (cost * 1000)
    then (false, after)
    else (true, take_tokens key cost bucket after)

abbrev pub reset : String → RateLimiter → RateLimiter
reset key s = set_bucket key none s
