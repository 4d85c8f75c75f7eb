-- ===== src/Sentinel/Proxy.antt =====
-- `handleToolCall` of packages/sentinel/src/proxy/SentinelProxy.ts: a call of a tool, from the client's
-- parameters to the upstream server and back.
pub mod Admission
mod Examples
use Prim.Native.Char.{code}
use Prim.Native.String.{◌++◌ as ◌<>◌}
use mcp_suite.Common.{
  ℕ, ◌+◌, ◌-◌, String, Bool, true, false, not, Option, none, some, List, [], ◌∷◌, ◌++◌,
  if◌then◌else◌, or_else, truthy, without_prefix, ◌==◌,
}
use mathlib.Core.Option
use mcp_suite.Effect.{Result, ok, err, Exec, pure, raise, lift, modify, ◌>>=◌, ◌>>◌}
use mcp_suite.Json.{Json, Fields, end}
use mcp_suite.Sentinel.Request.{ToolCallRequest}
use mcp_suite.Sentinel.Approval.Model.{ApprovalStatus, ApprovalRequest, is_approved}
use mcp_suite.Sentinel.Approval.Claim.{claim_execution}
use mcp_suite.Sentinel.Approval.Gate.{
  World, Gate, GateError, ApprovalConfig, hold_request, on_store,
}
use mcp_suite.Sentinel.Keys
use mcp_suite.Sentinel.Keys.{VirtualKey, Keys, KeyPlatform, KeyError, validate}
use mcp_suite.Sentinel.Pipeline.{
  Decision, allow, transform, deny, require_approval, Limiter, RequestMiddleware, process,
  same_char,
}

-- The parameters of `tools/call`.
pub record CallParams : Type 0 where
  pub name : String
  pub arguments : Option Fields
  pub headers : Option (List (String × String))

-- `config.approval`
pub record ProxyApproval : Type 0 where
  pub channels : Option (List String)
  pub timeout : Option String
  pub approver_principal_id : Option String
  pub fails_open : Bool

-- What `auditLog.record` receives, but for the time that the call took.
pub record AuditEntry : Type 0 where
  pub key : VirtualKey
  pub request : ToolCallRequest
  pub allowed : Bool
  pub is_error : Bool
  pub error : Option String

pub data ProxyError : Type 0 where
  denied middleware upstream : String → ProxyError
  keys : KeyError → ProxyError
  gate : GateError → ProxyError
  invalid_expiry : ProxyError

-- What is outside: the gate's world, the keys' platform, the clock of the limiter, the answer of the
-- upstream server to the n-th call, the response pipeline, and `new Date` of a text.
pub record ProxyWorld : Type 0 where
  pub gate_world : World
  pub key_platform : KeyPlatform
  pub has_key_manager : Bool
  pub clock : ℕ → ℕ
  pub added : List RequestMiddleware
  pub call_tool : ℕ → String → Fields → Result String Json
  pub pass_response : Json → VirtualKey → Result String Json
  pub parse_date : String → Option ℕ
  pub approval : Option ProxyApproval
  pub status_text : ApprovalStatus → String

pub record Proxy : Type 0 where
  pub gate_state : Gate
  pub key_state : Keys
  pub limiter : Limiter
  pub audit : List AuditEntry
  pub upstream_calls : List ToolCallRequest
  pub answers : ℕ

abbrev pub ProxyAction : Type 0 → Type 0
ProxyAction A = Exec Proxy ProxyError A

unfoldable pub header : String → List (String × String) → Option String
header name [] = none
header name ((n, value) ∷ rest) = if n == name then some value else header name rest

-- `headers[lower] ?? headers[upper]`
abbrev pub either_header : String → String → List (String × String) → Option String
either_header lower upper headers = elim (header lower headers) [
  | some value ↦ some value
  | none ↦ header upper headers
]

abbrev pub bearer_of : List (String × String) → Option String
bearer_of headers = elim (either_header "authorization" "Authorization" headers) [
  | none ↦ none
  | some value ↦ without_prefix "Bearer " value
]

abbrev pub anonymous : ℕ → VirtualKey
anonymous at = record {
  id = "anonymous";
  name = "anonymous";
  tags = "anonymous" ∷ [];
  created_at = at;
  expires_at = none;
  rate_limit = none;
  allowed_tools = some [];
  raw_key = none;
  is_revoked = false;
}

abbrev pub request_of : CallParams → ToolCallRequest
request_of params = record {
  tool = params.name;
  input = or_else params.arguments end;
  headers = or_else params.headers [];
}

-- A failure of one part is a failure of the proxy.
abbrev pub in_part {ℓ} :
    {E : Type ℓ} {A : Type ℓ} → (E → ProxyError) → Result E A → Result ProxyError A
in_part f (ok a) = ok a
in_part f (err e) = err (f e)

module _ (world : ProxyWorld) where
  abbrev pub on_keys : {A : Type 0} → Exec Keys KeyError A → ProxyAction A
  on_keys m s = (in_part keys (m s.key_state).0, record s { key_state = (m s.key_state).1 })

  abbrev pub on_limiter : {A : Type 0} → Exec Limiter String A → ProxyAction A
  on_limiter m s = (in_part middleware (m s.limiter).0, record s { limiter = (m s.limiter).1 })

  abbrev pub on_gate : {A : Type 0} → Exec Gate GateError A → ProxyAction A
  on_gate m s = (in_part gate (m s.gate_state).0, record s { gate_state = (m s.gate_state).1 })

  abbrev pub record_audit : AuditEntry → ProxyAction Unit
  record_audit entry = modify (λ s. record s { audit = s.audit ++ entry ∷ [] })

  unfoldable pub anonymous_key : ProxyAction VirtualKey
  anonymous_key = do at ← on_keys (Keys.now world.key_platform); pure (anonymous at)

  unfoldable pub known_or_anonymous : Option VirtualKey → ProxyAction VirtualKey
  known_or_anonymous (some key) = pure key
  known_or_anonymous none = anonymous_key

  unfoldable pub resolve_virtual_key : Option String → ProxyAction VirtualKey
  resolve_virtual_key none = anonymous_key
  resolve_virtual_key (some raw) =
      if world.has_key_manager
      then (do found ← on_keys (validate world.key_platform raw); known_or_anonymous found)
      else anonymous_key

  unfoldable pub read_optional_expiry : Option String → Result ProxyError (Option (Option ℕ))
  read_optional_expiry none = ok none
  read_optional_expiry (some value) = elim (world.parse_date value) [
    | none ↦ err invalid_expiry
    | some t ↦ ok (some (some t))
  ]

  abbrev pub config_of : ToolCallRequest → VirtualKey → Option (Option ℕ) → ApprovalConfig
  config_of request key upstream_expires_at = record {
    channels = or_else (elim world.approval [ none ↦ none | some a ↦ a.channels ]) ("default" ∷ []);
    timeout = or_else (elim world.approval [ none ↦ none | some a ↦ a.timeout ]) "5m";
    fails_open = elim world.approval [ none ↦ false | some a ↦ a.fails_open ];
    requester_principal_id = some key.id;
    approver_principal_id = elim world.approval [
      | none ↦ none
      | some a ↦ truthy a.approver_principal_id
    ];
    upstream_expires_at = upstream_expires_at;
    idempotency_key =
        truthy (either_header "x-sentinel-request-id" "X-Sentinel-Request-Id" request.headers);
  }

  abbrev pub denial : VirtualKey → ToolCallRequest → String → AuditEntry
  denial key request reason = record {
    key = key;
    request = request;
    allowed = false;
    is_error = false;
    error = some reason;
  }

  abbrev pub refuse_call : VirtualKey → ToolCallRequest → String → ProxyAction Unit
  refuse_call key request reason = do
    record_audit (denial key request reason)
    raise (denied reason)

  unfoldable pub enforce_approval :
      ℕ → ToolCallRequest → ToolCallRequest → VirtualKey → ProxyAction Unit
  enforce_approval fuel request final_request key = do
    expiry ← lift (
        read_optional_expiry (
          truthy (
            either_header "x-sentinel-request-expires-at" "X-Sentinel-Request-Expires-At"
              request.headers)))
    approval ←
        on_gate (hold_request world.gate_world fuel final_request (config_of request key expiry))
    if not (is_approved approval.status)
        then refuse_call key request ("Approval " <> world.status_text approval.status)
        else do
          claimed ← on_gate (on_store (claim_execution world.gate_world.env approval.id key.id))
          if not claimed
              then refuse_call key request "Approved execution was already claimed"
              else pure tt

  abbrev pub outcome_entry : VirtualKey → ToolCallRequest → Option String → AuditEntry
  outcome_entry key request error = record {
    key = key;
    request = request;
    allowed = true;
    is_error = elim error [ none ↦ false | some e ↦ true ];
    error = error;
  }

  -- The end of the `try`: what it throws is logged and thrown on.
  unfoldable pub finish : VirtualKey → ToolCallRequest → Result String Json → ProxyAction Json
  finish key request (ok response) = record_audit (outcome_entry key request none) >> pure response
  finish key request (err message) =
      record_audit (outcome_entry key request (some message)) >> raise (upstream message)

  abbrev pub passed : Result String Json → VirtualKey → Result String Json
  passed (ok response) key = world.pass_response response key
  passed (err message) key = err message

  unfoldable pub forward : ToolCallRequest → ToolCallRequest → VirtualKey → ProxyAction Json
  forward request final_request key = do
    answer ← (λ s. (
      ok (world.call_tool s.answers final_request.tool final_request.input),
      record s { upstream_calls = s.upstream_calls ++ final_request ∷ []; answers = s.answers + 1 },
    ))
    finish key request (passed answer key)

  unfoldable pub decided_call : ℕ → ToolCallRequest → VirtualKey → Decision → ProxyAction Json
  decided_call fuel request key (deny reason) = do
    refuse_call key request reason
    raise (denied reason)
  decided_call fuel request key (transform changed) = forward request changed key
  decided_call fuel request key (allow same) = forward request request key
  decided_call fuel request key require_approval = do
    enforce_approval fuel request request key
    forward request request key

  unfoldable pub handle_tool_call : ℕ → CallParams → ProxyAction Json
  handle_tool_call fuel params = do
    key ← resolve_virtual_key (truthy (bearer_of (request_of params).headers))
    decision ← on_limiter (process world.clock world.added (request_of params) key)
    decided_call fuel (request_of params) key decision
