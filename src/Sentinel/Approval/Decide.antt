-- ===== src/Sentinel/Approval/Decide.antt =====
-- `decide` and `cancel` of
-- packages/sentinel/src/approval/ApprovalStore.ts.
pub mod Accepts
pub mod SingleUse
use mcp_suite.Common.{
  ℕ, String, true, not, ◌&&◌, Option, none, some, ◌==◌, leb, if◌then◌else◌, is_some,
}
use mathlib.Core.Option
use mcp_suite.Effect.{raise, pure, lift, gets, modify, require_some, ◌>>=◌, ◌>>◌}
use mcp_suite.Table.{update}
use mcp_suite.Sentinel.Approval.Model.{
  ApprovalStatus, ApprovalDecision, ApprovalEventType, ApprovalTransitionErrorCode,
  invalid_capability, capability_used, capability_expired, principal_mismatch, request_not_found,
  terminal_state, Error, transition, ApprovalRequest, DecisionTransactionResult, Env, Action,
  is_pending, decided_status, decided_event,
}
use mcp_suite.Sentinel.Approval.Input.{now, hash_capability}
use mcp_suite.Sentinel.Approval.Sql.{
  transaction, find_capability, select_request, update_pending, changed_one, insert_event,
  transition_pending, require_request, expire_row_if_due,
}

-- A transaction that commits although the method will throw.
abbrev pub rejected : ApprovalRequest → ApprovalTransitionErrorCode → DecisionTransactionResult
rejected request code = record { request = request; error = some (transition code) }

abbrev pub accepted : ApprovalRequest → DecisionTransactionResult
accepted request = record { request = request; error = none }

-- `if (result.error) throw result.error; return result.request;`
abbrev pub throw_or_return : Option Error → ApprovalRequest → Action ApprovalRequest
throw_or_return none request = pure request
throw_or_return (some e) request = raise e

abbrev pub conclude : DecisionTransactionResult → Action ApprovalRequest
conclude result = throw_or_return result.error result.request

-- UPDATE approval_capabilities SET used_at = ? WHERE capability_hash = ?
unfoldable pub mark_used : String → ℕ → Action Unit
mark_used hash at = modify (λ s. record s {
  database = record s.database {
    capabilities =
        update (λ c. c.capability_hash) hash (λ c. true) (λ c. record c { used_at = some at })
          s.capabilities;
  };
})

module _ (env : Env) where
  -- The writes of `decide` once every check has passed.
  unfoldable pub apply_decision :
      ApprovalRequest
      → String
      → String
      → ApprovalDecision
      → Option String
      → ℕ
      → Action DecisionTransactionResult
  apply_decision request hash principal decision reason at = do
    changed ← update_pending request.id (decided_status decision) at principal reason
    if not (changed_one changed)
        then (do request' ← require_request env request.id; pure (rejected request' terminal_state))
        else do
          mark_used hash at
          insert_event env request.id (decided_event decision) (decided_status decision)
              (some principal) reason
          request' ← require_request env request.id
          pure (accepted request')

  unfoldable pub decide_body :
      String → String → ApprovalDecision → Option String → ℕ → Action DecisionTransactionResult
  unfolding apply_decision
  decide_body hash principal decision reason at = do
    found ← gets (λ s. find_capability hash s.capabilities)
    capability ← require_some found (transition invalid_capability)
    found_row ← select_request capability.request_id
    row ← require_some found_row (transition request_not_found)
    request ← expire_row_if_due env row at
    if is_some capability.used_at
        then pure (rejected request capability_used)
        else if not (capability.principal_id == principal)
        then pure (rejected request principal_mismatch)
        else if leb capability.expires_at at
        then pure (rejected request capability_expired)
        else if not (is_pending request.status)
        then pure (rejected request terminal_state)
        else apply_decision request hash principal decision (Option.map env.sanitize_error reason)
            at

  unfoldable pub decide :
      String → String → ApprovalDecision → Option String → Action ApprovalRequest
  unfolding decide_body
  decide raw_capability principal decision reason = do
    at ← now env
    hash ← lift (hash_capability env raw_capability)
    result ← transaction (decide_body hash principal decision reason at)
    conclude result

  unfoldable pub cancel_body :
      String → String → Option String → ℕ → Action DecisionTransactionResult
  cancel_body request_id principal reason at = do
    found ← select_request request_id
    row ← require_some found (transition request_not_found)
    request ← expire_row_if_due env row at
    if not (is_pending request.status)
        then pure (rejected request terminal_state)
        else if not (principal == request.requester_principal_id)
            && not (principal == request.approver_principal_id)
        then pure (rejected request principal_mismatch)
        else do
          transition_pending env request.id ApprovalStatus.cancelled at principal
              (Option.map env.sanitize_error reason) ApprovalEventType.cancelled
          request' ← require_request env request.id
          pure (accepted request')

  unfoldable pub cancel : String → String → Option String → Action ApprovalRequest
  unfolding cancel_body
  cancel request_id principal reason = do
    at ← now env
    result ← transaction (cancel_body request_id principal reason at)
    conclude result
