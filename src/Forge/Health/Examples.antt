-- ===== src/Forge/Health/Examples.antt =====
-- A checker of two servers, one of which fails, on which the theorem about
-- packages/forge/src/connections/HealthChecker.ts is applied.
use mcp_suite.Common.{String, ◌≡◌, refl, false, not, List, [], ◌∷◌, ◌==◌}
use mcp_suite.Forge.Health.{
  Checker, Network, get_entry, set_entry, add_server, check_server, check_each, is_healthy_server,
}
use mcp_suite.Forge.Health.Tracking.{failed_thrice, outcomes, is_healthy_server_lem}

abbrev network : Network String
network = record { answers = λ n name url. name == "files"; clock = λ n. n }

abbrev empty_checker : Checker String
empty_checker = record { servers = []; statuses = []; emitted = []; pings = 0; clock_reads = 0 }

abbrev checker : Checker String
checker = add_server network "files" "http://localhost:2" empty_checker

abbrev round : List (String × String)
round = ("search", "http://localhost:1") ∷ ("files", "http://localhost:2") ∷ []

abbrev thrice : List (String × String)
thrice = ("search", "http://localhost:1") ∷ ("search", "http://localhost:1") ∷ round

goes_down :
    is_healthy_server "search"
      (check_each network thrice (add_server network "search" "http://localhost:1" checker))
    ≡ false
unfolding check_each check_server add_server get_entry set_entry
goes_down = refl

is_healthy_server_lem_example :
    is_healthy_server "search"
      (check_each network thrice (add_server network "search" "http://localhost:1" checker))
    ≡ not (
        failed_thrice (
          outcomes network "search" thrice
            (add_server network "search" "http://localhost:1" checker)
            []))
is_healthy_server_lem_example =
    is_healthy_server_lem network thrice "search" "http://localhost:1" checker
