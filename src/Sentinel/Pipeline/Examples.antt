-- ===== src/Sentinel/Pipeline/Examples.antt =====
-- A key, rules and arrival times on which the theorems about
-- packages/sentinel/src/proxy/RequestPipeline.ts and packages/sentinel/src/policy/PolicyEngine.ts are
-- applied.
use mcp_suite.Common.{
  ◌+◌, ◌*◌, ◌≤◌, ◌≡◌, List, ◌↔◌, refl, arith, true, false, none, some, [], ◌∷◌, length, ◌==◌,
}
use mcp_suite.Effect.{ok, ◌>>=◌}
use mcp_suite.Json.{end}
use mcp_suite.Sentinel.Request.{ToolCallRequest}
use mcp_suite.Sentinel.Keys.{VirtualKey}
use mcp_suite.Sentinel.Pipeline.{
  now, limited, Limiter, allow, PolicyRule, denies, deny, evaluate, process, is_allowed,
  not_allowed, glob_matches, rate_limit,
}
use mcp_suite.Sentinel.Pipeline.Glob.{Matches, glob_matches_iff}
use mcp_suite.Sentinel.Pipeline.RateLimit.{admitted, admitted_lem, within_minute}
use mcp_suite.Sentinel.Pipeline.Decisions.{process_denies, process_iff, has_room, evaluate_first}

abbrev key : VirtualKey
key = record {
  id = "key-1";
  name = "build";
  tags = [];
  created_at = 10;
  expires_at = none;
  rate_limit = some 2;
  allowed_tools = some ("repo.*" ∷ []);
  raw_key = none;
  is_revoked = false;
}

abbrev limiter : Limiter
limiter = record { request_times = λ id. none; clock_reads = 0 }

abbrev request : ToolCallRequest
request = record { tool = "deploy"; input = end; headers = [] }

abbrev denies_deploy : PolicyRule
denies_deploy = record {
  name = "no-deploy";
  applies = λ req k. req.tool == "deploy";
  action = denies;
  reason = none;
}

abbrev denies_read : PolicyRule
denies_read = record {
  name = "no-read";
  applies = λ req k. req.tool == "read";
  action = denies;
  reason = none;
}

glob_matches_iff_example : (glob_matches "repo.*" "repo.read" ≡ true) ↔ Matches "repo.*" "repo.read"
glob_matches_iff_example = glob_matches_iff "repo.*" "repo.read"

abbrev requests : List (ToolCallRequest × VirtualKey)
requests =
    (request, key) ∷ (request, key) ∷ (request, record key { id = "key-2" }) ∷ (request, key) ∷ []

admits_two : admitted (λ n. 1000 * (n + 1)) "key-1" 2 limiter [] requests ≡ 1000 ∷ 2000 ∷ []
unfolding admitted rate_limit now limited ◌>>=◌
admits_two = refl

admitted_lem_example :
    length (within_minute 1000 (admitted (λ n. 1000 * (n + 1)) "key-1" 2 limiter [] requests)) ≤ 2
admitted_lem_example =
    admitted_lem (λ n. 1000 * (n + 1)) "key-1" 2 limiter requests 1000 (λ n. omega arith)
      (omega arith) refl ((λ h. refl), ((λ h. refl), ((λ h. refl), ((λ h. refl), tt))))

process_denies_example :
    process (λ n. n) (rate_limit (λ n. n) ∷ []) request key limiter
    ≡ (ok (not_allowed "deploy"), limiter)
unfolding glob_matches
process_denies_example = process_denies (λ n. n) (rate_limit (λ n. n) ∷ []) request key limiter refl

process_iff_example :
    ((process (λ n. n) [] request key limiter).0 ≡ ok (allow request))
    ↔ ((is_allowed key "deploy" ≡ true) × (has_room key 0 limiter ≡ true))
process_iff_example = process_iff (λ n. n) request key limiter

evaluate_first_example :
    evaluate (denies_read ∷ denies_deploy ∷ denies_read ∷ []) request key
    ≡ some (deny "Policy \"no-deploy\" denied request")
evaluate_first_example =
    evaluate_first (denies_read ∷ []) (denies_read ∷ []) denies_deploy request key (refl, tt) refl
