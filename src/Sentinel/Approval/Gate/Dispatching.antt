-- ===== src/Sentinel/Approval/Gate/Dispatching.antt =====
-- What the dispatch loop of packages/sentinel/src/approval/ApprovalGate.ts does when the request is
-- closed while an adapter publishes it.
use mcp_suite.Common.{
  String, ◌≡◌, refl, true, false, some, List, ◌∷◌, arith, Option-cases, inl, inr,
}
use mcp_suite.Effect.{err, ◌>>=◌}
use mcp_suite.Sentinel.Approval.Model.{
  RequestRow, Store, Env, transition, terminal_state, is_pending,
}
use mcp_suite.Sentinel.Approval.Sql.{
  find_request, require_pending, require_request, select_request, to_request,
}
use mcp_suite.Sentinel.Approval.Dispatch.{record_dispatch, record_dispatch_failure}
use mcp_suite.Sentinel.Approval.Gate.{
  World, Gate, ApprovalDispatch, store, publish_all, try_record, caught, failed_publish,
  await_publish, pause, on_store,
}

require_pending_closed :
    (env : Env) (s : Store) (id : String) (row : RequestRow)
    → find_request id s.requests ≡ some row
    → is_pending row.status ≡ false
    → (require_pending env id s) ≡ (err (transition terminal_state), s)
unfolding require_pending require_request select_request to_request ◌>>=◌
require_pending_closed env s id row found done = ground arith

record_closed :
    (env : Env) (s : Store) (id channel reason : String) (row : RequestRow)
    → find_request id s.requests ≡ some row
    → is_pending row.status ≡ false
    → (record_dispatch env id channel s ≡ (err (transition terminal_state), s))
      × (record_dispatch_failure env id channel reason s ≡ (err (transition terminal_state), s))
unfolding record_dispatch record_dispatch_failure ◌>>=◌
record_closed env s id channel reason row found done = (
  rw (require_pending_closed env s id row found done) refl,
  rw (require_pending_closed env s id row found done) refl,
)

-- Where the request is closed while an adapter publishes it, as by a quick decision, the loop throws
-- `terminal_state`, whatever the decision was and whatever channels follow.
pub publish_all_closed :
    (world : World) (g : Gate) (dispatch : ApprovalDispatch) (channel : String)
    (channels published : List String) (row : RequestRow)
    → world.has_adapter channel ≡ true
    → find_request dispatch.request.id (pause world g).1.approvals.requests ≡ some row
    → is_pending row.status ≡ false
    → publish_all world dispatch (channel ∷ channels) published g
      ≡ (err (store (transition terminal_state)), (pause world g).1)
unfolding publish_all await_publish try_record caught failed_publish on_store pause ◌>>=◌
publish_all_closed world g dispatch channel channels published row known found done =
    let t = (pause world g).1.approvals in
    let id = dispatch.request.id in
    let text = world.message (store (transition terminal_state)) in
    elim (Option-cases (world.publish g.awaits channel dispatch)) [
      | inl taken ↦
          ground (arith, known, record_closed world.env t id channel text row found done, taken)
      | inr (message, thrown) ↦
          ground (arith, known, record_closed world.env t id channel message row found done, thrown)
    ]
