-- ===== src/Sentinel/Approval/Read.antt =====
-- `get`, `list` and `events` of
-- packages/sentinel/src/approval/ApprovalStore.ts.
use mcp_suite.Common.{
  ℕ, String, Bool, ◌&&◌, Option, none, some, List, [], ◌∷◌, map, ◌==◌, leb, if◌then◌else◌, keep_if,
  truthy,
}
use mathlib.Core.Option
use mcp_suite.Effect.{pure, gets, ◌>>=◌, ◌>>◌}
use mcp_suite.Sentinel.Approval.Model.{
  ApprovalStatus, ApprovalRequest, RequestRow, EventRow, ApprovalEvent, Env, Action,
}
use mcp_suite.Sentinel.Approval.Sql.{select_request, to_request}
use mcp_suite.Sentinel.Approval.Expiry.{expire_due}

-- ORDER BY created_at DESC
unfoldable pub insert_newest : RequestRow → List RequestRow → List RequestRow
insert_newest r [] = r ∷ []
insert_newest r (x ∷ xs) =
    if leb x.created_at r.created_at then r ∷ x ∷ xs else x ∷ insert_newest r xs

unfoldable pub newest_first : List RequestRow → List RequestRow
unfolding insert_newest
newest_first [] = []
newest_first (x ∷ xs) = insert_newest x (newest_first xs)

abbrev pub rank : ApprovalStatus → ℕ
rank ApprovalStatus.pending = 0
rank ApprovalStatus.approved = 1
rank ApprovalStatus.denied = 2
rank ApprovalStatus.expired = 3
rank ApprovalStatus.cancelled = 4

abbrev pub same_status : ApprovalStatus → ApprovalStatus → Bool
same_status a b = leb (rank a) (rank b) && leb (rank b) (rank a)

abbrev pub matching : Option ApprovalStatus → List RequestRow → List RequestRow
matching none rows = rows
matching (some status) rows = keep_if (λ r. same_status r.status status) rows

to_event : EventRow → ApprovalEvent
to_event row = record {
  id = row.id;
  request_id = row.request_id;
  type = row.event_type;
  status = row.status;
  actor_principal_id = truthy row.actor_principal_id;
  reason = truthy row.reason;
  created_at = row.created_at;
}

module _ (env : Env) where
  unfoldable pub get : String → Bool → Action (Option ApprovalRequest)
  unfolding expire_due
  get request_id expire_first = do
    (if expire_first then expire_due env >> pure tt else pure tt)
    found ← select_request request_id
    pure (Option.map (to_request env) found)

  unfoldable pub list : Option ApprovalStatus → Action (List ApprovalRequest)
  unfolding expire_due newest_first
  list status = do
    expire_due env
    rows ← gets (λ s. newest_first (matching status s.requests))
    pure (map (to_request env) rows)

  unfoldable pub events : String → Action (List ApprovalEvent)
  unfolding to_event
  events request_id = do
    rows ← gets (λ s. keep_if (λ e. e.request_id == request_id) s.events)
    pure (map to_event rows)
