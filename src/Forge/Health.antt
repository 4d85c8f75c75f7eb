-- ===== src/Forge/Health.antt =====
-- packages/forge/src/connections/HealthChecker.ts: a server is unhealthy from its third failed check in
-- a row until the next check that succeeds.
pub mod Tracking
mod Examples
use mcp_suite.Common.{
  ℕ, suc, ◌+◌, String, Bool, true, false, not, ◌&&◌, Option, none, some, List, [], ◌∷◌, ◌++◌, leb,
  if◌then◌else◌, is_some, or_else, ◌==◌,
}
use mathlib.Core.Option

pub record HealthStatus : Type 0 where
  pub is_healthy : Bool
  pub consecutive_failures : ℕ
  pub last_checked : ℕ

pub data HealthEvent : Type 0 where
  recovered unhealthy : String → HealthEvent

module _ (Config : Type 0) where
  -- The two maps, in the order of insertion, the events emitted, and how often a server was pinged
  -- and the clock read.
  pub record Checker : Type 0 where
    pub servers : List (String × Config)
    pub statuses : List (String × HealthStatus)
    pub emitted : List HealthEvent
    pub pings : ℕ
    pub clock_reads : ℕ

  -- What is outside: whether the n-th `getClient` and `ping` succeed, and the n-th time of the clock.
  pub record Network : Type 0 where
    pub answers : ℕ → String → Config → Bool
    pub clock : ℕ → ℕ

-- `Map.get` and `Map.set`
unfoldable pub get_entry {ℓ} : {A : Type ℓ} → String → List (String × A) → Option A
get_entry name [] = none
get_entry name ((n, a) ∷ rest) = if n == name then some a else get_entry name rest

unfoldable pub set_entry {ℓ} : {A : Type ℓ} → String → A → List (String × A) → List (String × A)
set_entry name a [] = (name, a) ∷ []
set_entry name a ((n, b) ∷ rest) =
    if n == name then (n, a) ∷ rest else (n, b) ∷ set_entry name a rest

abbrev pub after_success : ℕ → HealthStatus
after_success at = record { is_healthy = true; consecutive_failures = 0; last_checked = at }

abbrev pub goes_down : HealthStatus → Bool
goes_down status = status.is_healthy && leb 3 (suc status.consecutive_failures)

abbrev pub after_failure : HealthStatus → HealthStatus
after_failure status = record status {
  consecutive_failures = suc status.consecutive_failures;
  is_healthy = status.is_healthy && not (leb 3 (suc status.consecutive_failures));
}

module _ {Config : Type 0} (network : Network Config) where
  unfoldable pub add_server : String → Config → Checker Config → Checker Config
  add_server name config s = record s {
    servers = set_entry name config s.servers;
    statuses = set_entry name (after_success (network.clock s.clock_reads)) s.statuses;
    clock_reads = s.clock_reads + 1;
  }

  abbrev pub succeed : String → HealthStatus → Checker Config → Checker Config
  succeed name status s = record s {
    statuses = set_entry name (after_success (network.clock s.clock_reads)) s.statuses;
    emitted = if status.is_healthy then s.emitted else s.emitted ++ recovered name ∷ [];
    pings = s.pings + 1;
    clock_reads = s.clock_reads + 1;
  }

  abbrev pub fail : String → HealthStatus → Checker Config → Checker Config
  fail name status s = record s {
    statuses = set_entry name (after_failure status) s.statuses;
    emitted = if goes_down status then s.emitted ++ unhealthy name ∷ [] else s.emitted;
    pings = s.pings + 1;
  }

  unfoldable pub check_server : String → Config → Checker Config → Checker Config
  check_server name config s = elim (get_entry name s.statuses) [
    | none ↦ s
    | some status ↦
        if network.answers s.pings name config then succeed name status s else fail name status s
  ]

  unfoldable pub check_each : List (String × Config) → Checker Config → Checker Config
  check_each [] s = s
  check_each ((name, config) ∷ rest) s = check_each rest (check_server name config s)

  unfoldable pub check_all : Checker Config → Checker Config
  check_all s = check_each s.servers s

abbrev pub is_healthy_server : {Config : Type 0} → String → Checker Config → Bool
is_healthy_server name s = elim (get_entry name s.statuses) [
  | none ↦ false
  | some status ↦ status.is_healthy
]
