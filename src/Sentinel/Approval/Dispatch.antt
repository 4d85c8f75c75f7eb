-- ===== src/Sentinel/Approval/Dispatch.antt =====
-- `recordDispatch` and `recordDispatchFailure` of
-- packages/sentinel/src/approval/ApprovalStore.ts.
use Prim.Native.String.{◌++◌ as ◌<>◌}
use mcp_suite.Common.{String, none, some}
use mcp_suite.Effect.{◌>>=◌}
use mcp_suite.Sentinel.Approval.Model.{ApprovalEventType, Env, Action}
use mcp_suite.Sentinel.Approval.Sql.{insert_event, require_pending}

module _ (env : Env) where
  unfoldable pub record_dispatch : String → String → Action Unit
  record_dispatch request_id channel = do
    request ← require_pending env request_id
    insert_event env request.id ApprovalEventType.dispatched request.status none (some channel)

  unfoldable pub record_dispatch_failure : String → String → String → Action Unit
  record_dispatch_failure request_id channel reason = do
    request ← require_pending env request_id
    insert_event env request.id ApprovalEventType.dispatch_failed request.status none
        (some (channel <> ": " <> env.sanitize_error reason))
