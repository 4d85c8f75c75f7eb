-- ===== src/Shared/RateLimiter/Examples.antt =====
-- `RateLimiter` of packages/shared/src/ratelimit/RateLimiter.ts on two keys: three tokens, one a second.
use mcp_suite.Common.{◌+◌, ◌-◌, ◌≤◌, ◌*◌, ◌≡◌, refl, arith, none, some, List, [], ◌∷◌}
use mcp_suite.Shared.RateLimiter.{RateLimiter, new_rate_limiter, get_bucket, consume, peek}
use mcp_suite.Shared.RateLimiter.Budget.{
  Call, peeks, consumes, resets, granted_to, granted_to_bound,
}

abbrev limiter : RateLimiter
limiter = new_rate_limiter 3 1

abbrev calls : List Call
calls =
    consumes 1000 "a" 2
    ∷ consumes 1200 "b" 1
    ∷ peeks 1300 "a"
    ∷ consumes 1500 "a" 2
    ∷ consumes 2500 "a" 2
    ∷ resets 2500 "a"
    ∷ consumes 2500 "a" 3
    ∷ []

grants_seven : granted_to "a" calls limiter ≡ 7
unfolding granted_to consume get_bucket peek
grants_seven = refl

waits : (peek 1300 "a" (consume 1000 "a" 3 limiter).1).0.retry_after_ms ≡ some 700
unfolding consume get_bucket peek
waits = refl

never : (peek 1300 "a" (consume 1000 "a" 3 (new_rate_limiter 3 0)).1).0.retry_after_ms ≡ none
unfolding consume get_bucket peek
never = refl

granted_to_bound_example : granted_to "a" calls limiter * 1000 ≤ 2 * (3 * 1000) + (2500 - 1000) * 1
granted_to_bound_example =
    granted_to_bound "a" 1000 2500 calls limiter
      (
        omega arith,
        (
          omega arith,
          (omega arith, (omega arith, (omega arith, (omega arith, (omega arith, omega arith))))),
        ),
      )
      (λ b h. ground (arith, h))
