-- ===== src/Sentinel/Proxy/Examples.antt =====
-- A proxy with one request waiting, on which the theorems about
-- packages/sentinel/src/proxy/SentinelProxy.ts are applied.
use mcp_suite.Common.{
  ◌+◌, ◌≡◌, ◌⊎◌, String, refl, true, false, none, some, List, [], ◌∷◌, truthy, without_prefix,
}
use mcp_suite.Effect.{ok, err, pure, ◌>>=◌}
use mcp_suite.Json.{null}
use mcp_suite.Table.{find}
use mcp_suite.Sentinel.Approval.Gate.Examples.{world, gate}
use mcp_suite.Sentinel.Keys.{KeyPlatform, Keys, VirtualKey}
use mcp_suite.Sentinel.Keys
use mcp_suite.Sentinel.Pipeline.{
  Limiter, RequestMiddleware, require_approval, process, not_allowed, deny,
}
use mcp_suite.Sentinel.Pipeline
use mcp_suite.Sentinel.Proxy.{
  ProxyWorld, Proxy, CallParams, handle_tool_call, denied, denial, anonymous, request_of,
  resolve_virtual_key, bearer_of, anonymous_key, header, known_or_anonymous,
}
use mcp_suite.Sentinel.Proxy.Admission.{Granted, handle_tool_call-Granted, handle_tool_call_denied}

abbrev key_platform : KeyPlatform
key_platform = record {
  clock = λ n. 1000 + n;
  random_hex = λ n size. "00";
  sha256 = λ s. s;
  print_texts = λ texts. "[]";
  parse_texts = λ text. some ("*" ∷ []);
}

-- Every allowed call needs an approval.
abbrev ask : RequestMiddleware
ask req key = pure (some require_approval)

abbrev proxy_world : ProxyWorld
proxy_world = record {
  gate_world = world;
  key_platform = key_platform;
  has_key_manager = true;
  clock = λ n. n;
  added = ask ∷ [];
  call_tool = λ n tool input. ok null;
  pass_response = λ response key. ok response;
  parse_date = λ text. none;
  approval = none;
  status_text = λ status. "pending";
}

-- `validate` accepts this key's text.
abbrev proxy : Proxy
proxy = record {
  gate_state = gate;
  key_state = record {
    rows =
        record {
          id = "alice";
          name = "alice";
          raw_key_hash = "mcp_01";
          tags = "[]";
          created_at = 10;
          expires_at = none;
          rate_limit_rpm = none;
          allowed_tools = "[]";
          is_revoked = false;
        }
        ∷ [];
    clock_reads = 0;
    draws = 0;
  };
  limiter = record { request_times = λ id. none; clock_reads = 0 };
  audit = [];
  upstream_calls = [];
  answers = 0;
}

abbrev params_with : List (String × String) → CallParams
params_with headers = record { name = "deploy"; arguments = none; headers = some headers }

abbrev alice : VirtualKey
alice = record {
  id = "alice";
  name = "alice";
  tags = "*" ∷ [];
  created_at = 10;
  expires_at = none;
  rate_limit = none;
  allowed_tools = some ("*" ∷ []);
  raw_key = none;
  is_revoked = false;
}

bearer :
    resolve_virtual_key proxy_world
      (truthy (bearer_of (("authorization", "Bearer mcp_01") ∷ [])))
      proxy
    ≡ (ok alice, proxy)
unfolding resolve_virtual_key header without_prefix ◌>>=◌ Keys.validate Keys.validate_row find
    Keys.to_virtual_key Keys.unless_expired known_or_anonymous
bearer = refl

asked :
    process
      (λ n. n)
      (ask ∷ [])
      (request_of (params_with (("authorization", "Bearer mcp_01") ∷ [])))
      alice
      proxy.limiter
    ≡ (ok require_approval, proxy.limiter)
unfolding process Pipeline.run_middlewares ◌>>=◌ Pipeline.allowlist Pipeline.glob_matches
    Pipeline.after_star Pipeline.rate_limit
asked = refl

handle_tool_call-Granted_example :
    ((handle_tool_call proxy_world 5000
        (params_with (("authorization", "Bearer mcp_01") ∷ []))
        proxy).1.upstream_calls
      ≡ [])
    ⊎ Granted proxy_world 5000
        (request_of (params_with (("authorization", "Bearer mcp_01") ∷ [])))
        alice
        proxy
        (handle_tool_call proxy_world 5000
          (params_with (("authorization", "Bearer mcp_01") ∷ []))
          proxy).1.gate_state.approvals
handle_tool_call-Granted_example =
    handle_tool_call-Granted proxy_world 5000
      (params_with (("authorization", "Bearer mcp_01") ∷ [])) alice proxy proxy proxy.limiter bearer
      asked

nobody :
    resolve_virtual_key proxy_world (truthy (bearer_of [])) proxy
    ≡ (ok (anonymous 1000), record proxy { key_state = record proxy.key_state { clock_reads = 1 } })
unfolding resolve_virtual_key anonymous_key header ◌>>=◌ Keys.now
nobody = refl

abbrev refusal : String
refusal = "Tool \"deploy\" is not allowed for this key"

refused :
    process (λ n. n) (ask ∷ []) (request_of (params_with [])) (anonymous 1000) proxy.limiter
    ≡ (ok (deny refusal), proxy.limiter)
unfolding process Pipeline.run_middlewares ◌>>=◌ Pipeline.allowlist
refused = refl

denies : handle_tool_call proxy_world 5000 (params_with []) proxy ≡ (
  err (denied refusal),
  record proxy {
    key_state = record proxy.key_state { clock_reads = 1 };
    audit = denial proxy_world (anonymous 1000) (request_of (params_with [])) refusal ∷ [];
  },
)
denies =
    handle_tool_call_denied proxy_world 5000 (params_with []) (anonymous 1000) proxy
      (record proxy { key_state = record proxy.key_state { clock_reads = 1 } }) proxy.limiter
      refusal nobody refused
