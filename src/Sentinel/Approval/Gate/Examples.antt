-- ===== src/Sentinel/Approval/Gate/Examples.antt =====
-- A gate with one stored request, on which the theorems about
-- packages/sentinel/src/approval/ApprovalGate.ts are applied.
use mcp_suite.Common.{◌≤◌, ◌≡◌, ◌≢◌, refl, true, false, none, some, [], ◌∷◌, arith, trim}
use mcp_suite.Effect.{ok, err, ◌>>=◌}
use mcp_suite.Table.{find, changes, update}
use mcp_suite.Sentinel.Approval.Model.{
  ApprovalStatus, RequestRow, ApprovalRequest, transition, terminal_state,
}
use mcp_suite.Sentinel.Approval.Sql.{
  transaction, select_request, transition_pending, update_pending, insert_event, require_request,
  to_request, with_outcome, find_request,
}
use mcp_suite.Sentinel.Approval.Input.{now}
use mcp_suite.Sentinel.Approval.Expiry.{expire}
use mcp_suite.Sentinel.Approval.Calls.{expires, run, step}
use mcp_suite.Sentinel.Approval.Examples.{env, row_in, pending_store}
use mcp_suite.Sentinel.Approval.Gate.{
  World, Gate, ApprovalConfig, store, out_of_fuel, dispatch_of, publish_all, hold_loop, pause,
}
use mcp_suite.Sentinel.Approval.Gate.Duration.{
  parse_approval_duration, parse_approval_duration-bounds, max_safe_integer, read_digits,
}
use mcp_suite.Sentinel.Approval.Gate.Dispatching.{publish_all_closed}
use mcp_suite.Sentinel.Approval.Gate.Holding.{hold_loop_ends}

-- While an adapter publishes, another caller closes the request.
abbrev pub world : World
world = record {
  env = env;
  has_adapter = λ name. true;
  publish = λ n name dispatch. none;
  aborted = λ n. false;
  meanwhile = λ n. expires "request-1" true ∷ [];
  token = λ n. "00";
  message = λ e. "";
  allow_fail_open_timeout = false;
}

abbrev pub gate : Gate
gate = record { approvals = pending_store; awaits = 0; looks = 0; tokens = 0; cancels = [] }

abbrev config : ApprovalConfig
config = record {
  channels = "chat" ∷ [];
  timeout = "4s";
  fails_open = false;
  requester_principal_id = none;
  approver_principal_id = none;
  upstream_expires_at = none;
  idempotency_key = none;
}

abbrev held : ApprovalRequest
held = to_request env (row_in ApprovalStatus.pending)

four_seconds : parse_approval_duration " 4s" ≡ ok 4000
unfolding parse_approval_duration trim read_digits
four_seconds = refl

parse_approval_duration-bounds_example : (1 ≤ 4000) × (4000 ≤ max_safe_integer)
parse_approval_duration-bounds_example = parse_approval_duration-bounds " 4s" 4000 four_seconds

abbrev closed_row : RequestRow
closed_row =
    with_outcome ApprovalStatus.approved 1000 "system:timeout"
      (some "Approved by explicit fail-open timeout policy") (row_in ApprovalStatus.pending)

closed_meanwhile :
    find_request "request-1" (pause world gate).1.approvals.requests ≡ some closed_row
unfolding run step pause find expire ◌>>=◌ now transaction select_request transition_pending
    update_pending changes insert_event update require_request
closed_meanwhile = refl

publish_all_closed_example :
    publish_all world (dispatch_of held "approval_00") ("chat" ∷ "mail" ∷ []) [] gate
    ≡ (err (store (transition terminal_state)), (pause world gate).1)
unfolding to_request
publish_all_closed_example =
    publish_all_closed world gate (dispatch_of held "approval_00") "chat" ("mail" ∷ []) []
      closed_row refl closed_meanwhile refl

hold_loop_ends_example : (hold_loop world config held 4001 gate).0 ≢ err out_of_fuel
unfolding to_request
hold_loop_ends_example =
    hold_loop_ends world config held 4000 4000 gate (λ n h. omega (arith, h)) (omega arith)
