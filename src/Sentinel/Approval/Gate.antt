-- ===== src/Sentinel/Approval/Gate.antt =====
-- packages/sentinel/src/approval/ApprovalGate.ts: a request is dispatched to the adapters of its
-- channels, and held until it is decided, due or aborted. Where the code awaits, other callers use the
-- store: the calls they make then are part of the world.
pub mod Duration
pub mod Dispatching
pub mod Holding
pub mod Examples
use Prim.Native.String.{◌++◌ as ◌<>◌}
use mcp_suite.Common.{
  ℕ, zero, suc, ◌+◌, String, Bool, true, false, not, ◌||◌, Option, none, some, List, [], ◌∷◌, ◌++◌,
  map, leb, if◌then◌else◌, ◌&&◌, keep_if, or_else, truthy,
}
use mcp_suite.Effect.{Result, ok, err, Exec, pure, raise, lift, modify, require_some, ◌>>=◌, ◌>>◌}
use mcp_suite.Sentinel.Request.{ToolCallRequest}
use mcp_suite.Sentinel.Approval.Model.{
  CreateApprovalRequest, ApprovalRequest, ApprovalCreationResult, Error, transition, terminal_state,
  request_not_found, Store, Env, Action, is_pending,
}
use mcp_suite.Sentinel.Approval.Input.{now}
use mcp_suite.Sentinel.Approval.Create.{create_or_reuse}
use mcp_suite.Sentinel.Approval.Dispatch.{record_dispatch, record_dispatch_failure}
use mcp_suite.Sentinel.Approval.Decide.{cancel}
use mcp_suite.Sentinel.Approval.Expiry.{expire}
use mcp_suite.Sentinel.Approval.Read.{get}
use mcp_suite.Sentinel.Approval.Calls.{Call, run}
use mcp_suite.Sentinel.Approval.Gate.Duration.{DurationError, parse_approval_duration}

-- `on_timeout` and `signal` aside, an absent field is `none`.
pub record ApprovalConfig : Type 0 where
  pub channels : List String
  pub timeout : String
  pub fails_open : Bool
  pub requester_principal_id : Option String
  pub approver_principal_id : Option String
  pub upstream_expires_at : Option (Option ℕ)
  pub idempotency_key : Option String

pub record ApprovalCapability : Type 0 where
  pub request_id : String
  pub token : String
  pub principal_id : String
  pub expires_at : ℕ

pub record ApprovalDispatch : Type 0 where
  pub request : ApprovalRequest
  pub capability : ApprovalCapability

pub record ApprovalRequestResult : Type 0 where
  pub request : ApprovalRequest
  pub capability : Option ApprovalCapability

-- The store's error, a refused timeout, fail-open where it is not allowed, and the end of the fuel.
pub data GateError : Type 0 where
  store : Error → GateError
  timeout : DurationError → GateError
  fail_open_disabled out_of_fuel : GateError

-- What is outside: whether an adapter stands under a name, whether the n-th `publish` throws a message,
-- whether the signal is aborted at the n-th look, the calls that others make during the n-th await, the
-- n-th token, and the text of an error.
pub record World : Type 0 where
  pub env : Env
  pub has_adapter : String → Bool
  pub publish : ℕ → String → ApprovalDispatch → Option String
  pub aborted : ℕ → Bool
  pub meanwhile : ℕ → List Call
  pub token : ℕ → String
  pub message : GateError → String
  pub allow_fail_open_timeout : Bool

-- The store, how often the code awaited, looked at the signal and drew a token, and which adapters
-- were asked to cancel which request.
pub record Gate : Type 0 where
  pub approvals : Store
  pub awaits : ℕ
  pub looks : ℕ
  pub tokens : ℕ
  pub cancels : List (String × String)

abbrev pub GateAction : Type 0 → Type 0
GateAction A = Exec Gate GateError A

abbrev pub store_result {ℓ} : {A : Type ℓ} → Result Error A → Result GateError A
store_result (ok a) = ok a
store_result (err e) = err (store e)

-- A method of the store.
unfoldable pub on_store : {A : Type 0} → Action A → GateAction A
on_store m g = (store_result (m g.approvals).0, record g { approvals = (m g.approvals).1 })

abbrev pub duration_of : ApprovalConfig → Result GateError ℕ
duration_of config = elim (parse_approval_duration config.timeout) [
  | ok d ↦ ok d
  | err e ↦ err (timeout e)
]

abbrev pub input_of : ToolCallRequest → ApprovalConfig → ℕ → CreateApprovalRequest
input_of req config expires_at = record {
  requester_principal_id = or_else config.requester_principal_id "anonymous";
  approver_principal_id = or_else config.approver_principal_id "sentinel-approver";
  request = req;
  channels = config.channels;
  expires_at = some expires_at;
  upstream_expires_at = config.upstream_expires_at;
  idempotency_key = truthy config.idempotency_key;
}

abbrev pub dispatch_of : ApprovalRequest → String → ApprovalDispatch
dispatch_of request token = record {
  request = request;
  capability = record {
    request_id = request.id;
    token = token;
    principal_id = request.approver_principal_id;
    expires_at = request.expires_at;
  };
}

module _ (world : World) where
  -- `await`: the others' calls come in between.
  unfoldable pub pause : GateAction Unit
  pause g = (
    ok tt,
    record g {
      approvals = run world.env g.approvals (world.meanwhile g.awaits);
      awaits = g.awaits + 1;
    },
  )

  unfoldable pub draw_token : GateAction String
  draw_token g = (ok ("approval_" <> world.token g.tokens), record g { tokens = g.tokens + 1 })

  unfoldable pub is_aborted : GateAction Bool
  is_aborted g = (ok (world.aborted g.looks), record g { looks = g.looks + 1 })

  abbrev pub ask_cancel : List String → ApprovalRequest → GateAction Unit
  ask_cancel adapters request =
      modify (λ g. record g { cancels = g.cancels ++ map (λ a. (a, request.id)) adapters })

  unfoldable pub cancel_failed_dispatch :
      ApprovalRequest → List String → String → GateAction ApprovalRequestResult
  cancel_failed_dispatch request published reason = do
    cancelled ← on_store (cancel world.env request.id request.requester_principal_id (some reason))
    ask_cancel published cancelled
    pure (record { request = cancelled; capability = none })

  -- `catch (error)`: an error that is no store error and no message cannot come here.
  unfoldable pub failed_publish :
      ApprovalDispatch → String → List String → String → GateAction ApprovalRequestResult
  unfolding cancel_failed_dispatch
  failed_publish dispatch channel published message = do
    on_store (record_dispatch_failure world.env dispatch.request.id channel message)
    cancel_failed_dispatch dispatch.request published
        ("Approval channel dispatch failed: " <> channel)

  -- The outcome of `recordDispatch` inside the `try`: what it throws is caught, and its message goes to
  -- `recordDispatchFailure`.
  unfoldable pub caught :
      Result GateError (Unit {0})
      → GateAction ApprovalRequestResult
      → (GateError → GateAction ApprovalRequestResult)
      → GateAction ApprovalRequestResult
  caught (ok u) next handler = next
  caught (err e) next handler = handler e

  unfoldable pub try_record :
      ApprovalDispatch
      → String
      → GateAction ApprovalRequestResult
      → (GateError → GateAction ApprovalRequestResult)
      → GateAction ApprovalRequestResult
  unfolding caught
  try_record dispatch channel next handler g =
      let outcome = on_store (record_dispatch world.env dispatch.request.id channel) g in
      caught outcome.0 next handler outcome.1

  unfoldable pub missing_adapter :
      ApprovalDispatch → String → List String → GateAction ApprovalRequestResult
  unfolding cancel_failed_dispatch
  missing_adapter dispatch channel published = do
    on_store (
        record_dispatch_failure world.env dispatch.request.id channel
          "Approval channel adapter is not configured")
    cancel_failed_dispatch dispatch.request published
        ("Approval channel adapter is not configured: " <> channel)

  unfoldable pub await_publish : String → ApprovalDispatch → GateAction (Option String)
  unfolding pause
  await_publish channel dispatch g = (ok (world.publish g.awaits channel dispatch), (pause g).1)

  -- The loop over the channels. `published` holds the adapters that took the dispatch.
  unfoldable pub publish_all :
      ApprovalDispatch → List String → List String → GateAction ApprovalRequestResult
  publish_all dispatch [] published =
      pure (record { request = dispatch.request; capability = some dispatch.capability })
  publish_all dispatch (channel ∷ channels) published =
      let next = publish_all dispatch channels (published ++ channel ∷ []) in
      if not (world.has_adapter channel) then missing_adapter dispatch channel published else (do
        failure ← await_publish channel dispatch
        elim failure [
          | some message ↦ failed_publish dispatch channel published message
          | none ↦
              try_record dispatch channel next
                (λ e. failed_publish dispatch channel (published ++ channel ∷ []) (world.message e))
        ])

  unfoldable pub assert_timeout_policy : ApprovalConfig → Result GateError (Unit {0})
  assert_timeout_policy config =
      if config.fails_open && not world.allow_fail_open_timeout
      then err fail_open_disabled
      else ok tt

  unfoldable pub dispatch_created :
      ApprovalCreationResult → String → GateAction ApprovalRequestResult
  unfolding publish_all
  dispatch_created creation token =
      if not creation.capability_issued || not (is_pending creation.request.status)
      then pure (record { request = creation.request; capability = none })
      else publish_all (dispatch_of creation.request token) creation.request.channels []

  unfoldable pub request : ToolCallRequest → ApprovalConfig → GateAction ApprovalRequestResult
  unfolding dispatch_created draw_token
  request req config = do
    lift (assert_timeout_policy config)
    timeout_ms ← lift (duration_of config)
    created_at ← on_store (now world.env)
    token ← draw_token
    creation ←
        on_store (create_or_reuse world.env (input_of req config (created_at + timeout_ms)) token)
    dispatch_created creation token

  -- `cancel` of the gate: every channel of the request whose adapter is there is asked to cancel.
  unfoldable pub cancel_request : String → String → Option String → GateAction ApprovalRequest
  cancel_request id principal reason = do
    cancelled ← on_store (cancel world.env id principal reason)
    ask_cancel (keep_if world.has_adapter cancelled.channels) cancelled
    pure cancelled

  abbrev pub is_terminal_state : GateError → Bool
  is_terminal_state (store (transition terminal_state)) = true
  is_terminal_state _ = false

  unfoldable pub after_cancel :
      ApprovalRequest → Result GateError ApprovalRequest → GateAction ApprovalRequest
  after_cancel held (ok cancelled) = pure cancelled
  after_cancel held (err e) =
      if is_terminal_state e
      then (do current ← on_store (get world.env held.id true); pure (or_else current held))
      else raise e

  unfoldable pub cancel_after_abort : ApprovalRequest → ApprovalConfig → GateAction ApprovalRequest
  unfolding cancel_request after_cancel
  cancel_after_abort held config g =
      let outcome =
        cancel_request held.id (or_else config.requester_principal_id held.requester_principal_id)
          (some "Approval wait was cancelled by the requester") g in
      after_cancel held outcome.0 outcome.1

  -- `while (true)`, for at most this many rounds.
  unfoldable pub hold_loop : ApprovalConfig → ApprovalRequest → ℕ → GateAction ApprovalRequest
  hold_loop config held zero = raise out_of_fuel
  hold_loop config held (suc fuel) =
      let again = hold_loop config held fuel in
      do
        at ← on_store (now world.env)
        if leb held.expires_at at then on_store (expire world.env held.id config.fails_open) else do
          aborted ← is_aborted
          if aborted then cancel_after_abort held config else do
            found ← on_store (get world.env held.id false)
            current ← require_some found (store (transition request_not_found))
            if not (is_pending current.status) then pure current else (pause >> again)

  unfoldable pub hold_request : ℕ → ToolCallRequest → ApprovalConfig → GateAction ApprovalRequest
  unfolding request hold_loop
  hold_request fuel req config = do
    requested ← request req config
    if not (is_pending requested.request.status)
        then pure requested.request
        else hold_loop config requested.request fuel
