-- ===== src/Shared/Retry/Examples.antt =====
-- An operation that fails twice, on which the theorems about packages/shared/src/utils/retry.ts are applied.
use mcp_suite.Common.{ℕ, zero, suc, ◌≡◌, refl, Bool, true, false, none, some, arith}
use mcp_suite.Effect.{ok, err}
use mcp_suite.Shared.Retry.{RetryOptions, Trial, with_retry, retry_loop}
use mcp_suite.Shared.Retry.Outcomes.{Outcome, with_retry-Outcome}
use mcp_suite.Shared.Retry.Delays.{Spaced, with_retry-Spaced}

abbrev options : RetryOptions ℕ
options = record {
  max_attempts = none;
  base_delay_ms = none;
  max_delay_ms = some 1500;
  jitter = none;
  should_retry = none;
}

abbrev trial : Trial ℕ Bool
trial = record {
  operation = λ n. elim n [ zero ↦ err 7 | suc zero ↦ err 8 | _ ↦ ok true ];
  is_aborted = λ n. false;
  is_aborted_waiting = λ n. false;
  random = λ n. 0;
}

third_time : (with_retry options trial).0 ≡ ok true
unfolding with_retry retry_loop
third_time = refl

with_retry-Outcome_example : Outcome options trial (with_retry options trial).0
with_retry-Outcome_example = with_retry-Outcome options trial

waits_are_short : Spaced options trial (with_retry options trial).1
waits_are_short = with_retry-Spaced options trial (λ n. omega arith)
