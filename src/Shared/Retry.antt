-- ===== src/Shared/Retry.antt =====
-- `withRetry` of packages/shared/src/utils/retry.ts.
pub mod Outcomes
pub mod Delays
mod Examples
use mcp_suite.Common.{
  ℕ, zero, suc, ◌+◌, ◌-◌, ◌*◌, ◌^◌, Bool, true, false, not, ◌||◌, Option, none, some, List, [], ◌∷◌,
  ◌++◌, leb, if◌then◌else◌, or_else,
}
use mcp_suite.Effect.{Result, ok, err}

-- What is absent is `none`; `should_retry` returns.
pub record RetryOptions (E : Type 0) : Type 0 where
  pub max_attempts : Option ℕ
  pub base_delay_ms : Option ℕ
  pub max_delay_ms : Option ℕ
  pub jitter : Option Bool
  pub should_retry : Option (E → ℕ → Bool)

-- `failed e` is `toError(e)`. `out_of_fuel` is no error of the source.
pub data RetryError (E : Type 0) : Type 0 where
  aborted : RetryError E
  failed : E → RetryError E
  out_of_fuel : RetryError E

-- What the caller and the world do, by the number of failures so far: the result of `operation`, whether the
-- signal is aborted before it, whether it is aborted before the delay after that failure has passed, and
-- the random number of the jitter, in units of 2^-53.
pub record Trial (E T : Type 0) : Type 0 where
  pub operation : ℕ → Result E T
  pub is_aborted : ℕ → Bool
  pub is_aborted_waiting : ℕ → Bool
  pub random : ℕ → ℕ

-- A call of `onRetry`. The delay is in units of 2^-54 milliseconds.
pub record Retried (E : Type 0) : Type 0 where
  pub error : E
  pub attempt : ℕ
  pub delay : ℕ

abbrev min : ℕ → ℕ → ℕ
min a b = if leb a b then a else b

module _ {E T : Type 0} (options : RetryOptions E) (trial : Trial E T) where
  abbrev pub attempts_allowed : ℕ
  attempts_allowed = or_else options.max_attempts 3

  abbrev pub can_retry : E → ℕ → Bool
  can_retry e attempt = elim options.should_retry [ none ↦ true | some decide ↦ decide e attempt ]

  abbrev pub backoff : ℕ → ℕ
  backoff attempt =
      min (or_else options.base_delay_ms 1000 * 2 ^ (attempt - 1))
        (or_else options.max_delay_ms 10000)

  -- `delay * (0.5 + Math.random() * 0.5)`, or the delay as it is.
  unfoldable pub delay_of : ℕ → ℕ
  delay_of attempt =
      if or_else options.jitter true
      then backoff attempt * (2 ^ 53 + trial.random attempt)
      else backoff attempt * 2 ^ 54

  abbrev pub gives_up : E → ℕ → Bool
  gives_up e attempt = leb attempts_allowed attempt || not (can_retry e attempt)

  abbrev pub retried : E → ℕ → Retried E
  retried e attempt = record { error = e; attempt = attempt; delay = delay_of attempt }

  -- The `while` loop, after this many failures, with the calls of `onRetry` so far.
  unfoldable pub retry_loop : ℕ → ℕ → List (Retried E) → Result (RetryError E) T × List (Retried E)
  retry_loop zero failures calls = (err out_of_fuel, calls)
  retry_loop (suc fuel) failures calls =
      if trial.is_aborted failures then (err aborted, calls) else elim (trial.operation failures) [
        | ok t ↦ (ok t, calls)
        | err e ↦
            if gives_up e (suc failures)
            then (err (failed e), calls)
            else if trial.is_aborted_waiting (suc failures)
            then (err aborted, calls ++ retried e (suc failures) ∷ [])
            else retry_loop fuel (suc failures) (calls ++ retried e (suc failures) ∷ [])
      ]

  -- Each round but the last one is a failure below the limit.
  unfoldable pub with_retry : Result (RetryError E) T × List (Retried E)
  with_retry = retry_loop (suc attempts_allowed) 0 []
