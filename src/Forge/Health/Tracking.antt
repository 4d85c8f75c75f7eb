-- ===== src/Forge/Health/Tracking.antt =====
-- The statuses that packages/forge/src/connections/HealthChecker.ts keeps follow the checks that were made.
use mcp_suite.Common.{
  ℕ, zero, suc, String, ◌≡◌, refl, ap, ◌∙◌, Bool, true, false, not, some, List, [], ◌∷◌, arith, leb,
  Option-cases, Bool-cases, inl, inr, ◌==◌, eq_iff, if◌then◌else◌,
}
use mcp_suite.Forge.Health.{
  HealthStatus, Checker, Network, get_entry, set_entry, after_success, after_failure, add_server,
  check_server, check_each, is_healthy_server,
}

-- The three latest of these outcomes, the last one first, are failures.
abbrev pub failed_thrice : List Bool → Bool
failed_thrice (false ∷ false ∷ false ∷ rest) = true
failed_thrice _ = false

-- The failures since the last success.
abbrev in_a_row : List Bool → ℕ
in_a_row [] = zero
in_a_row (true ∷ log) = zero
in_a_row (false ∷ log) = suc (in_a_row log)

failed_thrice_lem : (log : List Bool) → failed_thrice log ≡ leb 3 (in_a_row log)
failed_thrice_lem [] = ground arith
failed_thrice_lem (true ∷ log) = ground arith
failed_thrice_lem (false ∷ []) = ground arith
failed_thrice_lem (false ∷ true ∷ log) = ground arith
failed_thrice_lem (false ∷ false ∷ []) = ground arith
failed_thrice_lem (false ∷ false ∷ true ∷ log) = ground arith
failed_thrice_lem (false ∷ false ∷ false ∷ log) = ground arith

module _ {A : Type 0} where
  get_entry-set_entry :
      (name n : String) (a : A) (entries : List (String × A))
      → get_entry name (set_entry n a entries)
        ≡ (if n == name then some a else get_entry name entries)
  unfolding get_entry set_entry
  get_entry-set_entry name n a [] = refl
  get_entry-set_entry name n a ((m, b) ∷ rest) =
      ground (arith, get_entry-set_entry name n a rest, eq_iff m n, eq_iff m name, eq_iff n name)

-- The server has a status, which says what these outcomes say.
record Follows {Config : Type 0} (name : String) (log : List Bool) (s : Checker Config)
    : Type 0 where
  status : HealthStatus
  found : get_entry name s.statuses ≡ some status
  healthy : status.is_healthy ≡ not (leb 3 (in_a_row log))
  failures : status.consecutive_failures ≡ in_a_row log

module _ {Config : Type 0} (network : Network Config) where
  -- The outcomes of the checks of a server in a sequence of checks, before those in the log.
  unfoldable pub outcomes : String → List (String × Config) → Checker Config → List Bool → List Bool
  outcomes name [] s log = log
  outcomes name ((n, config) ∷ rest) s log =
      outcomes name rest (check_server network n config s)
        (if n == name then network.answers s.pings n config ∷ log else log)

  own-Follows :
      (name n : String) (config : Config) (log : List Bool) (s : Checker Config)
      → n ≡ name
      → Follows name log s
      → Follows name (network.answers s.pings n config ∷ log) (check_server network n config s)
  unfolding check_server
  own-Follows name n config log s own p =
      let found : get_entry n s.statuses ≡ some p.status =
        ap (λ m. get_entry m s.statuses) own ∙ p.found in
      elim (Bool-cases (network.answers s.pings n config)) [
        | inl answered ↦ rw answered (record {
          status = after_success (network.clock s.clock_reads);
          found = ground (
            arith,
            found,
            answered,
            get_entry-set_entry name n (after_success (network.clock s.clock_reads)) s.statuses,
            eq_iff n name,
          );
          healthy = ground arith;
          failures = refl;
        })
        | inr failed ↦ rw failed (record {
          status = after_failure p.status;
          found = ground (
            arith,
            found,
            failed,
            get_entry-set_entry name n (after_failure p.status) s.statuses,
            eq_iff n name,
          );
          healthy = ground (arith, p.healthy, p.failures);
          failures = ground (arith, p.failures);
        })
      ]

  other_entry :
      (name n : String) (config : Config) (s : Checker Config)
      → (n == name) ≡ false
      → get_entry name (check_server network n config s).statuses ≡ get_entry name s.statuses
  unfolding check_server
  other_entry name n config s apart = elim (Option-cases (get_entry n s.statuses)) [
    | inl missing ↦ ground (arith, missing)
    | inr (status, known) ↦ ground (
      arith,
      known,
      apart,
      get_entry-set_entry name n (after_success (network.clock s.clock_reads)) s.statuses,
      get_entry-set_entry name n (after_failure status) s.statuses,
    )
  ]

  other-Follows :
      (name n : String) (config : Config) (log : List Bool) (s : Checker Config)
      → (n == name) ≡ false
      → Follows name log s
      → Follows name log (check_server network n config s)
  other-Follows name n config log s apart p = record {
    status = p.status;
    found = other_entry name n config s apart ∙ p.found;
    healthy = p.healthy;
    failures = p.failures;
  }

  check_each-Follows :
      (checks : List (String × Config)) (name : String) (log : List Bool) (s : Checker Config)
      → Follows name log s
      → Follows name (outcomes name checks s log) (check_each network checks s)
  unfolding check_each outcomes
  check_each-Follows [] name log s p = p
  check_each-Follows ((n, config) ∷ rest) name log s p = elim (Bool-cases (n == name)) [
    | inl own ↦ rw own (
        check_each-Follows rest name (network.answers s.pings n config ∷ log)
          (check_server network n config s)
          (own-Follows name n config log s ((eq_iff n name).0 own) p))
    | inr apart ↦ rw apart (
        check_each-Follows rest name log (check_server network n config s)
          (other-Follows name n config log s apart p))
  ]

  -- After a server was added, and after any sequence of checks of any servers since then, it is healthy
  -- exactly where not all of its three latest checks failed.
  pub is_healthy_server_lem :
      (checks : List (String × Config)) (name : String) (config : Config) (s : Checker Config)
      → is_healthy_server name (check_each network checks (add_server network name config s))
        ≡ not (failed_thrice (outcomes name checks (add_server network name config s) []))
  unfolding add_server
  is_healthy_server_lem checks name config s =
      let t : Checker Config = add_server network name config s in
      let p : Follows name (outcomes name checks t []) (check_each network checks t) =
        check_each-Follows checks name [] t (record {
          status = after_success (network.clock s.clock_reads);
          found = ground (
            arith,
            get_entry-set_entry name name (after_success (network.clock s.clock_reads)) s.statuses,
            eq_iff name name,
          );
          healthy = ground arith;
          failures = refl;
        }) in
      ground (arith, p.found, p.healthy, failed_thrice_lem (outcomes name checks t []))
