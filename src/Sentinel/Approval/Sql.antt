-- ===== src/Sentinel/Approval/Sql.antt =====
-- The private methods of packages/sentinel/src/approval/ApprovalStore.ts: one for each statement on
-- the three tables, and the steps that the public methods share. An INSERT that would break a key or a
-- reference of `initializeSchema` throws.
pub mod Equations
use mcp_suite.Common.{
  ℕ, ◌+◌, String, Bool, false, not, ◌&&◌, Option, none, some, List, [], ◌∷◌, ◌++◌, ◌==◌, leb,
  if◌then◌else◌, is_some, truthy,
}
use mcp_suite.Effect.{Result, ok, err, raise, pure, gets, modify, require_some, ◌>>=◌, ◌>>◌}
use mcp_suite.Json.{str, texts, arr}
use mcp_suite.Json
use mcp_suite.Table.{find, update, changes}
use mcp_suite.Sentinel.Request.{ToolCallRequest}
use mcp_suite.Sentinel.Approval.Model.{
  ApprovalStatus, ApprovalEventType, request_not_found, terminal_state, Error, transition,
  constraint, invalid_status, ApprovalRequest, RequestRow, CapabilityRow, EventRow, Store, Env,
  Action, is_pending, is_terminal,
}
use mcp_suite.Sentinel.Approval.Input.{now, safe_string_array}

-- db.transaction(body)(): a throw takes back what the body wrote, and goes on to the caller.
abbrev pub settle {ℓ} : {A : Type ℓ} → Result Error A → Store → Store → Result Error A × Store
settle (ok a) s t = (ok a, t)
settle (err e) s t = (err e, record t { database = s.database })

unfoldable pub transaction : {A : Type 0} → Action A → Action A
transaction body s = settle (body s).0 s (body s).1

abbrev pub find_request : String → List RequestRow → Option RequestRow
find_request = find (λ r. r.id)

abbrev pub find_capability : String → List CapabilityRow → Option CapabilityRow
find_capability = find (λ c. c.capability_hash)

abbrev pub has_key : String → RequestRow → Bool
has_key key r = elim r.idempotency_key [ none ↦ false | some k ↦ k == key ]

-- `selectByIdempotencyKey`
unfoldable pub find_by_key : String → List RequestRow → Option RequestRow
find_by_key key [] = none
find_by_key key (r ∷ rows) = if has_key key r then some r else find_by_key key rows

unfoldable pub select_request : String → Action (Option RequestRow)
select_request id = gets (λ s. find_request id s.requests)

unfoldable pub select_by_idempotency_key : String → Action (Option RequestRow)
select_by_idempotency_key key = gets (λ s. find_by_key key s.requests)

-- Whether a row with this id or this idempotency key is there already.
abbrev pub key_taken : Option String → List RequestRow → Bool
key_taken none rows = false
key_taken (some key) rows = is_some (find_by_key key rows)

unfoldable pub insert_request : RequestRow → Action Unit
insert_request row s =
    if is_some (find_request row.id s.requests)
    then (err constraint, s)
    else if key_taken row.idempotency_key s.requests
    then (err constraint, s)
    else (ok tt, record s { database = record s.database { requests = s.requests ++ row ∷ [] } })

abbrev pub still_pending : RequestRow → Bool
still_pending r = is_pending r.status

abbrev pub with_outcome : ApprovalStatus → ℕ → String → Option String → RequestRow → RequestRow
with_outcome status at actor reason r = record r {
  status = status;
  decided_at = some at;
  decided_by = some actor;
  reason = reason;
}

-- `result.changes === 1`
abbrev pub changed_one : ℕ → Bool
changed_one n = leb 1 n && leb n 1

-- UPDATE … SET status, decided_at, decided_by, reason WHERE id = ? AND status = 'pending'
unfoldable pub update_pending : String → ApprovalStatus → ℕ → String → Option String → Action ℕ
update_pending id status at actor reason s = (
  ok (changes (λ r. r.id) id still_pending s.requests),
  record s {
    database = record s.database {
      requests =
          update (λ r. r.id) id still_pending (with_outcome status at actor reason) s.requests;
    };
  },
)

abbrev pub timeout_actor : String
timeout_actor = "system:timeout"

abbrev pub expired_reason : Option String
expired_reason = some "Approval request expired"

abbrev pub is_due : ApprovalStatus → ℕ → ℕ → Bool
is_due status expires_at at = is_pending status && leb expires_at at

abbrev pub event_row :
    ℕ → String → ApprovalEventType → ApprovalStatus → Option String → Option String → ℕ → EventRow
event_row id request_id type status actor reason at = record {
  id = id;
  request_id = request_id;
  event_type = type;
  status = status;
  actor_principal_id = actor;
  reason = reason;
  created_at = at;
}

abbrev pub capability_row : String → String → String → ℕ → ℕ → CapabilityRow
capability_row hash request_id principal_id at expires_at = record {
  capability_hash = hash;
  request_id = request_id;
  principal_id = principal_id;
  created_at = at;
  expires_at = expires_at;
  used_at = none;
}

module _ (env : Env) where
  unfoldable pub insert_capability : String → String → String → ℕ → Action Unit
  insert_capability request_id principal_id hash expires_at s =
      let row = capability_row hash request_id principal_id (env.clock s.clock_reads) expires_at in
      if is_some (find_capability hash s.capabilities)
      then (err constraint, record s { clock_reads = s.clock_reads + 1 })
      else if is_some (find_request request_id s.requests)
      then (
        ok tt,
        record s {
          clock_reads = s.clock_reads + 1;
          database = record s.database { capabilities = s.capabilities ++ row ∷ [] };
        },
      )
      else (err constraint, record s { clock_reads = s.clock_reads + 1 })

  unfoldable pub insert_event :
      String → ApprovalEventType → ApprovalStatus → Option String → Option String → Action Unit
  insert_event request_id type status actor reason s =
      let at = env.clock s.clock_reads in
      if is_some (find_request request_id s.requests)
      then (
        ok tt,
        record s {
          clock_reads = s.clock_reads + 1;
          database = record s.database {
            events =
                s.events ++ event_row s.next_event_id request_id type status actor reason at ∷ [];
            next_event_id = s.next_event_id + 1;
          };
        },
      )
      else (err constraint, record s { clock_reads = s.clock_reads + 1 })

  unfoldable pub transition_pending :
      String → ApprovalStatus → ℕ → String → Option String → ApprovalEventType → Action ℕ
  transition_pending id status at actor reason type =
      if not (is_terminal status) then raise invalid_status else do
        changed ← update_pending id status at actor reason
        if changed_one changed
            then (do insert_event id type status (some actor) reason; pure changed)
            else pure changed

  stored_request : RequestRow → ToolCallRequest
  stored_request row = elim (env.parse_request row.request_json) [
    | some parsed ↦ parsed
    | none ↦ record {
      tool = row.tool_name;
      input = Json.field "_approval" (str "[INVALID_STORED_REQUEST]") Json.end;
      headers = [];
    }
  ]

  unfoldable pub to_request : RequestRow → ApprovalRequest
  unfolding stored_request
  to_request row = record {
    id = row.id;
    requester_principal_id = row.requester_principal_id;
    approver_principal_id = row.approver_principal_id;
    request = (env.sanitize_request (stored_request row)).request;
    channels = safe_string_array (env.parse row.channels_json);
    status = row.status;
    created_at = row.created_at;
    expires_at = row.expires_at;
    upstream_expires_at = row.upstream_expires_at;
    idempotency_key = truthy row.idempotency_key;
    decided_at = row.decided_at;
    decided_by = truthy row.decided_by;
    reason = truthy row.reason;
    execution_claimed_at = row.execution_claimed_at;
    execution_claimed_by = truthy row.execution_claimed_by;
  }

  unfoldable pub require_request : String → Action ApprovalRequest
  unfolding select_request
  require_request id = do
    found ← select_request id
    row ← require_some found (transition request_not_found)
    pure (to_request row)

  unfoldable pub expire_row_if_due : RequestRow → ℕ → Action ApprovalRequest
  expire_row_if_due row at =
      let request = to_request row in
      if is_due row.status row.expires_at at
      then (do
        transition_pending row.id ApprovalStatus.expired at timeout_actor expired_reason
            ApprovalEventType.expired
        require_request row.id)
      else pure request

  -- `requirePending(requestId, false)`, the only form that is called: it does not expire the row.
  unfoldable pub require_pending : String → Action ApprovalRequest
  unfolding select_request
  require_pending id = do
    found ← select_request id
    row ← require_some found (transition request_not_found)
    if is_pending row.status then pure (to_request row) else raise (transition terminal_state)
