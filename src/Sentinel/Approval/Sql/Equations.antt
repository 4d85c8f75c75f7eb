-- ===== src/Sentinel/Approval/Sql/Equations.antt =====
-- What the private steps of packages/sentinel/src/approval/ApprovalStore.ts compute on a request that
-- is there, as one equation each.
use mcp_suite.Common.{
  ℕ, ◌+◌, String, ◌≡◌, subst, sym, true, false, Option, some, [], ◌∷◌, ◌++◌, arith, eq_iff,
  if◌then◌else◌,
}
use mcp_suite.Effect.{ok, is_ok, ◌>>=◌}
use mcp_suite.Table.{update, changes, find-update, key-find, update_idle}
use mcp_suite.Sentinel.Approval.Model.{
  ApprovalStatus, ApprovalEventType, RequestRow, Store, Env, Action, is_pending, is_terminal,
}
use mcp_suite.Sentinel.Approval.Sql.{
  transaction, find_request, insert_event, event_row, update_pending, still_pending, with_outcome,
  transition_pending, require_request, to_request, timeout_actor, expired_reason, is_due,
  expire_row_if_due, select_request,
}

-- The state after the outcome of request `id` was written, with the event that records it.
abbrev pub closed :
    Env → String → ApprovalStatus → ℕ → String → Option String → ApprovalEventType → Store → Store
closed env id status at actor reason type s = record s {
  clock_reads = s.clock_reads + 1;
  database = record s.database {
    requests = update (λ r. r.id) id still_pending (with_outcome status at actor reason) s.requests;
    events =
        s.events
        ++ event_row s.next_event_id id type status (some actor) reason (env.clock s.clock_reads)
          ∷ [];
    next_event_id = s.next_event_id + 1;
  };
}

-- The row that `expireRowIfDue` leaves.
abbrev pub lapsed_row : ℕ → RequestRow → RequestRow
lapsed_row at row =
    if is_due row.status row.expires_at at
    then with_outcome ApprovalStatus.expired at timeout_actor expired_reason row
    else row

-- A body that returns is committed, and one that throws leaves the database as it was.
pub transaction_returns :
    {A : Type 0} (body : Action A) (s : Store)
    → is_ok (body s).0 ≡ true
    → transaction body s ≡ body s
unfolding transaction
transaction_returns body s h = ground arith

pub transaction_committed :
    {A : Type 0} (body : Action A) (s : Store) {a : A}
    → (transaction body s).0 ≡ ok a
    → ((body s).0 ≡ ok a) × (transaction body s ≡ body s)
unfolding transaction
transaction_committed body s h = ground arith

pub transaction_throws :
    {A : Type 0} (body : Action A) (s : Store)
    → is_ok (body s).0 ≡ false
    → (transaction body s).1.database ≡ s.database
unfolding transaction
transaction_throws body s h = ground arith

module _ (env : Env) where
  pub transition_pending_open :
      (s : Store) (id : String) (row : RequestRow) (status : ApprovalStatus) (at : ℕ)
      (actor : String) (reason : Option String) (type : ApprovalEventType)
      → find_request id s.requests ≡ some row
      → is_pending row.status ≡ true
      → is_terminal status ≡ true
      → transition_pending env id status at actor reason type s
        ≡ (ok 1, closed env id status at actor reason type s)
  unfolding transition_pending update_pending insert_event changes ◌>>=◌
  transition_pending_open s id row status at actor reason type found open_row terminal = ground (
    arith,
    eq_iff id id,
    find-update (λ r. r.id) id id still_pending (with_outcome status at actor reason) s.requests,
  )

  pub transition_pending_shut :
      (s : Store) (id : String) (row : RequestRow) (status : ApprovalStatus) (at : ℕ)
      (actor : String) (reason : Option String) (type : ApprovalEventType)
      → find_request id s.requests ≡ some row
      → is_pending row.status ≡ false
      → is_terminal status ≡ true
      → transition_pending env id status at actor reason type s ≡ (ok 0, s)
  unfolding transition_pending update_pending changes ◌>>=◌
  transition_pending_shut s id row status at actor reason type found shut terminal = ground (
    arith,
    update_idle (λ r. r.id) id still_pending (with_outcome status at actor reason) s.requests row,
  )

  pub require_request_lem :
      (s : Store) (id : String) (row : RequestRow)
      → find_request id s.requests ≡ some row
      → require_request env id s ≡ (ok (to_request env row), s)
  unfolding require_request select_request ◌>>=◌
  require_request_lem s id row found = ground arith

  abbrev pub lapsed : RequestRow → ℕ → Store → Store
  lapsed row at s =
      if is_due row.status row.expires_at at
      then closed env row.id ApprovalStatus.expired at timeout_actor expired_reason
          ApprovalEventType.expired s
      else s

  -- The outcome reads back from the state after it was written.
  pub find-closed :
      (s : Store) (id : String) (row : RequestRow) (status : ApprovalStatus) (at : ℕ)
      (actor : String) (reason : Option String) (type : ApprovalEventType)
      → find_request id s.requests ≡ some row
      → is_pending row.status ≡ true
      → find_request id (closed env id status at actor reason type s).requests
        ≡ some (with_outcome status at actor reason row)
  find-closed s id row status at actor reason type found open_row = ground (
    arith,
    eq_iff id id,
    find-update (λ r. r.id) id id still_pending (with_outcome status at actor reason) s.requests,
  )

  expire_due_row :
      (s : Store) (row : RequestRow) (at : ℕ)
      → find_request row.id s.requests ≡ some row
      → expire_row_if_due env row at s ≡ (ok (to_request env (lapsed_row at row)), lapsed row at s)
  unfolding expire_row_if_due ◌>>=◌
  expire_due_row s row at found = ground (
    arith,
    transition_pending_open s row.id row ApprovalStatus.expired at timeout_actor expired_reason
        ApprovalEventType.expired,
    find-closed s row.id row ApprovalStatus.expired at timeout_actor expired_reason
        ApprovalEventType.expired,
    require_request_lem
        (closed env row.id ApprovalStatus.expired at timeout_actor expired_reason
          ApprovalEventType.expired s)
        row.id (with_outcome ApprovalStatus.expired at timeout_actor expired_reason row),
  )

  pub expire_row_if_due_lem :
      (s : Store) (id : String) (row : RequestRow) (at : ℕ)
      → find_request id s.requests ≡ some row
      → expire_row_if_due env row at s ≡ (ok (to_request env (lapsed_row at row)), lapsed row at s)
  expire_row_if_due_lem s id row at found = expire_due_row s row at (
      subst (λ k. find_request k s.requests ≡ some row)
        (sym (key-find (λ r. r.id) id s.requests row found)) found)
