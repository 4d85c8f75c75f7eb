-- ===== src/Shared/Retry/Outcomes.antt =====
-- What `withRetry` of packages/shared/src/utils/retry.ts promises, as a relation, and that its loop keeps it.
use mcp_suite.Common.{
  ℕ, zero, suc, ◌+◌, ◌<◌, ◌≤◌, ◌≡◌, arith, true, false, List, [], ◌∷◌, ◌++◌, ◌⊎◌, inl, inr,
  Bool-cases,
}
use mcp_suite.Effect.{Result, ok, err, Result-cases}
use mcp_suite.Shared.Retry.{
  RetryOptions, RetryError, aborted, failed, Trial, Retried, retried, attempts_allowed, can_retry,
  gives_up, retry_loop, with_retry,
}

module _ {E T : Type 0} (options : RetryOptions E) (trial : Trial E T) where
  -- The operation failed this often, each failure may be retried, and nothing was aborted.
  pub data Reaches : ℕ → Type 0 where
    start : Reaches 0
    again :
        (n : ℕ) (e : E)
        → Reaches n
        → trial.is_aborted n ≡ false
        → trial.operation n ≡ err e
        → suc n < attempts_allowed options trial
        → can_retry options trial e (suc n) ≡ true
        → trial.is_aborted_waiting (suc n) ≡ false
        → Reaches (suc n)

  -- The results that a caller may see, each with the failures before it.
  pub data Outcome : Result (RetryError E) T → Type 0 where
    returned :
        (n : ℕ) (t : T)
        → Reaches n
        → trial.is_aborted n ≡ false
        → trial.operation n ≡ ok t
        → Outcome (ok t)
    gave_up :
        (n : ℕ) (e : E)
        → Reaches n
        → trial.is_aborted n ≡ false
        → trial.operation n ≡ err e
        → (attempts_allowed options trial ≤ suc n) ⊎ (can_retry options trial e (suc n) ≡ false)
        → Outcome (err (failed e))
    stopped_before : (n : ℕ) → Reaches n → trial.is_aborted n ≡ true → Outcome (err aborted)
    stopped_waiting :
        (n : ℕ) (e : E)
        → Reaches n
        → trial.operation n ≡ err e
        → trial.is_aborted_waiting (suc n) ≡ true
        → Outcome (err aborted)

  -- The failures stay below the limit.
  Reaches-below : (n : ℕ) → Reaches n → n ≤ attempts_allowed options trial
  Reaches-below zero start = omega arith
  Reaches-below _ (again n e before live fails below retries waits) = omega (arith, below)

  retry_loop-Outcome :
      (fuel n : ℕ) (calls : List (Retried E))
      → attempts_allowed options trial < fuel + n
      → Reaches n
      → Outcome (retry_loop options trial fuel n calls).0
  unfolding retry_loop
  retry_loop-Outcome zero n calls enough here = absurd (omega (arith, enough, Reaches-below n here))
  retry_loop-Outcome (suc fuel) n calls enough here = elim (Bool-cases (trial.is_aborted n)) [
    | inl stopped ↦ rw stopped (stopped_before n here stopped)
    | inr live ↦ elim (Result-cases (trial.operation n)) [
      | inl (t, works) ↦ rw (live, works) (returned n t here live works)
      | inr (e, fails) ↦ elim (Bool-cases (gives_up options trial e (suc n))) [
        | inl last ↦ rw (live, fails, last) (gave_up n e here live fails (ground (arith, last)))
        | inr retries ↦ elim (Bool-cases (trial.is_aborted_waiting (suc n))) [
          | inl cut ↦ rw (live, fails, retries, cut) (stopped_waiting n e here fails cut)
          | inr waits ↦
              rw (live, fails, retries, waits)
                (retry_loop-Outcome fuel (suc n) (calls ++ retried options trial e (suc n) ∷ [])
                  (omega arith)
                  (again n e here live fails (ground (arith, retries)) (ground (arith, retries))
                    waits))
        ]
      ]
    ]
  ]

  -- Whatever the operation does, the loop ends with a result of the relation: the first success, the
  -- first failure that is not retried, or an abort.
  pub with_retry-Outcome : Outcome (with_retry options trial).0
  unfolding with_retry
  with_retry-Outcome =
      retry_loop-Outcome (suc (attempts_allowed options trial)) 0 [] (omega arith) start
