-- ===== src/Shared/Retry/Delays.antt =====
-- How often and how long `withRetry` of packages/shared/src/utils/retry.ts waits.
use native.Mathlib.Nat.{mul-le-mul}
use mcp_suite.Common.{
  ℕ, zero, suc, ◌-◌, ◌*◌, ◌^◌, ◌<◌, ◌≤◌, ◌≡◌, refl, arith, true, List, [], ◌∷◌, ◌++◌, All, All-snoc,
  length, length-append, or_else, inl, inr, Bool-cases,
}
use mcp_suite.Effect.{Result-cases}
use mcp_suite.Shared.Retry.{
  RetryOptions, Trial, Retried, retried, delay_of, backoff, attempts_allowed, gives_up, retry_loop,
  with_retry,
}

module _ {E T : Type 0} (options : RetryOptions E) (trial : Trial E T) where
  abbrev pub longest : ℕ
  longest = or_else options.max_delay_ms 10000

  backoff_bound : (n : ℕ) → backoff options trial n ≤ longest
  backoff_bound n = ground arith

  -- The delay is at most the longest one, since the random number is below one.
  delay_bound : (n : ℕ) → trial.random n < 2 ^ 53 → delay_of options trial n ≤ longest * 2 ^ 54
  unfolding delay_of
  delay_bound n h = elim (Bool-cases (or_else options.jitter true)) [
    | inl jittered ↦ rw jittered (mul-le-mul (backoff_bound n) (omega arith))
    | inr plain ↦ rw plain (mul-le-mul (backoff_bound n) (omega arith))
  ]

  -- What the calls of `onRetry` report: fewer than the attempts, and no delay above the longest.
  pub record Spaced (calls : List (Retried E)) : Type 0 where
    pub few : length calls ≤ attempts_allowed options trial - 1
    pub short : All (λ call. call.delay ≤ longest * 2 ^ 54) calls

  retry_loop-Spaced :
      ((n : ℕ) → trial.random n < 2 ^ 53)
      → (fuel n : ℕ) (calls : List (Retried E)) → length calls ≡ n
      → Spaced calls
      → Spaced (retry_loop options trial fuel n calls).1
  unfolding retry_loop
  retry_loop-Spaced below zero n calls count h = h
  retry_loop-Spaced below (suc fuel) n calls count h = elim (Bool-cases (trial.is_aborted n)) [
    | inl stopped ↦ rw stopped h
    | inr live ↦ elim (Result-cases (trial.operation n)) [
      | inl (t, works) ↦ rw (live, works) h
      | inr (e, fails) ↦ elim (Bool-cases (gives_up options trial e (suc n))) [
        | inl last ↦ rw (live, fails, last) h
        | inr retries ↦
            let call : Retried E = retried options trial e (suc n) in
            let next : Spaced (calls ++ call ∷ []) = record {
              few = ground (arith, retries, count, length-append calls (call ∷ []));
              short =
                  All-snoc (λ c. c.delay ≤ longest * 2 ^ 54) calls call h.short
                    (delay_bound (suc n) (below (suc n)));
            } in
            elim (Bool-cases (trial.is_aborted_waiting (suc n))) [
              | inl cut ↦ rw (live, fails, retries, cut) next
              | inr waits ↦
                  rw (live, fails, retries, waits)
                    (retry_loop-Spaced below fuel (suc n) (calls ++ call ∷ [])
                      (omega (arith, count, length-append calls (call ∷ []))) next)
            ]
      ]
    ]
  ]

  -- There are fewer waits than attempts allowed, and no wait is longer than the longest delay.
  pub with_retry-Spaced : ((n : ℕ) → trial.random n < 2 ^ 53) → Spaced (with_retry options trial).1
  unfolding with_retry
  with_retry-Spaced below =
      retry_loop-Spaced below (suc (attempts_allowed options trial)) 0 [] refl
        (record { few = omega arith; short = tt })
