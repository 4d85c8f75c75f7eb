-- ===== src/Sentinel/Approval/Claim.antt =====
-- `claimExecution` of
-- packages/sentinel/src/approval/ApprovalStore.ts.
pub mod Grants
use mcp_suite.Common.{
  ℕ, String, Bool, true, false, not, ◌&&◌, ◌||◌, none, some, ◌==◌, if◌then◌else◌, is_some,
}
use mcp_suite.Effect.{ok, pure, lift, require_some, ◌>>=◌, ◌>>◌}
use mcp_suite.Table.{update, changes}
use mcp_suite.Sentinel.Approval.Model.{
  ApprovalStatus, ApprovalEventType, request_not_found, transition, RequestRow, Env, Action,
  is_approved,
}
use mcp_suite.Sentinel.Approval.Input.{now, normalize_identifier}
use mcp_suite.Sentinel.Approval.Sql.{
  transaction, select_request, changed_one, insert_event, expire_row_if_due,
}

abbrev pub unclaimed : RequestRow → Bool
unclaimed r = is_approved r.status && not (is_some r.execution_claimed_at)

abbrev pub with_claim : ℕ → String → RequestRow → RequestRow
with_claim at actor r = record r {
  execution_claimed_at = some at;
  execution_claimed_by = some actor;
}

-- UPDATE … SET execution_claimed_at, execution_claimed_by
-- WHERE id = ? AND status = 'approved' AND execution_claimed_at IS NULL
unfoldable pub update_claim : String → ℕ → String → Action ℕ
update_claim id at actor s = (
  ok (changes (λ r. r.id) id unclaimed s.requests),
  record s {
    database = record s.database {
      requests = update (λ r. r.id) id unclaimed (with_claim at actor) s.requests;
    };
  },
)

module _ (env : Env) where
  -- The writes of `claimExecution` once the request is known to be approved for the actor.
  unfoldable pub apply_claim : String → String → ℕ → Action Bool
  apply_claim request_id actor at = do
    changed ← update_claim request_id at actor
    if not (changed_one changed) then pure false else do
      insert_event env request_id ApprovalEventType.execution_claimed ApprovalStatus.approved
          (some actor) none
      pure true

  unfoldable pub claim_body : String → String → ℕ → Action Bool
  unfolding apply_claim
  claim_body request_id actor at = do
    found ← select_request request_id
    row ← require_some found (transition request_not_found)
    request ← expire_row_if_due env row at
    if not (is_approved request.status) || not (request.requester_principal_id == actor)
        then pure false
        else apply_claim request_id actor at

  unfoldable pub claim_execution : String → String → Action Bool
  unfolding claim_body
  claim_execution request_id principal = do
    actor ← lift (normalize_identifier principal 200)
    at ← now env
    transaction (claim_body request_id actor at)
