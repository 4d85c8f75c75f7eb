-- ===== src/Sentinel/Approval/Expiry.antt =====
-- `expire` and `expireDue` of
-- packages/sentinel/src/approval/ApprovalStore.ts.
pub mod Sweep
use mcp_suite.Common.{
  ℕ, ◌+◌, String, Bool, true, false, not, ◌&&◌, Option, some, List, [], ◌∷◌, leb, if◌then◌else◌,
  keep_if, length,
}
use mcp_suite.Effect.{pure, gets, require_some, ◌>>=◌, ◌>>◌}
use mcp_suite.Sentinel.Approval.Model.{
  ApprovalStatus, ApprovalEventType, request_not_found, transition, ApprovalRequest, RequestRow,
  Env, Action, is_pending,
}
use mcp_suite.Sentinel.Approval.Input.{now}
use mcp_suite.Sentinel.Approval.Sql.{
  transaction, select_request, transition_pending, to_request, require_request, timeout_actor,
  expired_reason, is_due,
}

abbrev pub timeout_status : Bool → ApprovalStatus
timeout_status fail_open = if fail_open then ApprovalStatus.approved else ApprovalStatus.expired

abbrev pub timeout_event : Bool → ApprovalEventType
timeout_event fail_open =
    if fail_open then ApprovalEventType.approved else ApprovalEventType.expired

abbrev pub timeout_reason : Bool → Option String
timeout_reason fail_open =
    if fail_open then some "Approved by explicit fail-open timeout policy" else expired_reason

-- The first millisecond of the year 10000.
abbrev pub year_10000 : ℕ
year_10000 = 253402300800000

-- The order of the ISO texts: a year of more than four digits has six digits and a sign, which comes before
-- the digits.
abbrev pub iso_leb : ℕ → ℕ → Bool
iso_leb a b =
    if leb year_10000 a
    then (if leb year_10000 b then leb a b else true)
    else (if leb year_10000 b then false else leb a b)

-- SELECT id … WHERE status = 'pending' AND expires_at <= ?
abbrev pub due_rows : ℕ → List RequestRow → List RequestRow
due_rows at rows = keep_if (λ r. is_pending r.status && iso_leb r.expires_at at) rows

module _ (env : Env) where
  unfoldable pub expire_body : String → Bool → ℕ → Action ApprovalRequest
  expire_body request_id fail_open at = do
    found ← select_request request_id
    row ← require_some found (transition request_not_found)
    if not (is_pending row.status) then pure (to_request env row) else do
      transition_pending env row.id (timeout_status fail_open) at timeout_actor
          (timeout_reason fail_open) (timeout_event fail_open)
      require_request env row.id

  unfoldable pub expire : String → Bool → Action ApprovalRequest
  unfolding expire_body
  expire request_id fail_open = do at ← now env; transaction (expire_body request_id fail_open at)

  -- The loop of `expireDue`, with the sum of the changes so far.
  unfoldable pub expire_each : ℕ → List RequestRow → ℕ → Action ℕ
  expire_each at [] changed = pure changed
  expire_each at (row ∷ rows) changed = do
    more ←
        transition_pending env row.id ApprovalStatus.expired at timeout_actor expired_reason
          ApprovalEventType.expired
    expire_each at rows (changed + more)

  unfoldable pub expire_due : Action ℕ
  unfolding expire_each
  expire_due = do
    at ← now env
    due ← gets (λ s. due_rows at s.requests)
    if leb (length due) 0 then pure 0 else transaction (expire_each at due 0)
