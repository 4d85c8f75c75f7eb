-- ===== src/Sentinel/Approval/Decide/Accepts.antt =====
-- When `decide` of packages/sentinel/src/approval/ApprovalStore.ts accepts a decision, and what it
-- writes.
use mcp_suite.Common.{
  ℕ, ◌+◌, String, ◌≡◌, ap, subst, sym, ◌↔◌, ◌<◌, true, Option, none, some, [], ◌∷◌, ◌++◌, arith,
  eq_iff, Option-cases, inl, inr,
}
use mathlib.Core.Option
use mcp_suite.Effect.{ok, ◌>>=◌}
use mcp_suite.Table.{update, changes, find-update, key-find}
use mcp_suite.Sentinel.Approval.Sql.Equations.{expire_row_if_due_lem, require_request_lem}
use mcp_suite.Sentinel.Approval.Sql.{
  find_request, find_capability, transaction, select_request, insert_event, to_request,
  still_pending, with_outcome, update_pending, event_row,
}
use mcp_suite.Sentinel.Approval.Model.{
  ApprovalStatus, ApprovalDecision, ApprovalRequest, CapabilityRow, RequestRow, Store, Env,
  decided_status, decided_event, is_pending,
}
use mcp_suite.Sentinel.Approval.Input.{now, hash_capability}
use mcp_suite.Sentinel.Approval.Decide.{decide, apply_decision, mark_used, accepted}

-- The capability is there for this principal, is neither used nor expired, and its request is still
-- pending and not due.
pub record IsDecidable (s : Store) (hash principal : String) (at : ℕ) : Type 0 where
  pub capability : CapabilityRow
  pub row : RequestRow
  pub found : find_capability hash s.capabilities ≡ some capability
  pub found_row : find_request capability.request_id s.requests ≡ some row
  pub unused : capability.used_at ≡ none
  pub assigned : capability.principal_id ≡ principal
  pub valid : at < capability.expires_at
  pub open_row : row.status ≡ ApprovalStatus.pending
  pub in_time : at < row.expires_at

-- The state after an accepted decision.
abbrev pub decided :
    Env → String → String → String → ApprovalDecision → Option String → ℕ → Store → Store
decided env id hash principal decision reason at s = record s {
  clock_reads = s.clock_reads + 1;
  database = record s.database {
    requests =
        update (λ r. r.id) id still_pending
          (with_outcome (decided_status decision) at principal reason) s.requests;
    capabilities =
        update (λ c. c.capability_hash) hash (λ c. true) (λ c. record c { used_at = some at })
          s.capabilities;
    events =
        s.events
        ++ event_row s.next_event_id id (decided_event decision) (decided_status decision)
            (some principal) reason (env.clock s.clock_reads)
          ∷ [];
    next_event_id = s.next_event_id + 1;
  };
}

module _ (env : Env) where
  pub apply_decision_lem :
      (s : Store) (request : ApprovalRequest) (row : RequestRow) (hash principal : String)
      (decision : ApprovalDecision) (reason : Option String) (at : ℕ)
      → find_request request.id s.requests ≡ some row
      → is_pending row.status ≡ true
      → apply_decision env request hash principal decision reason at s ≡ (
        ok (
            accepted
              (to_request env (with_outcome (decided_status decision) at principal reason row))),
        decided env request.id hash principal decision reason at s,
      )
  unfolding apply_decision update_pending mark_used insert_event changes ◌>>=◌
  apply_decision_lem s request row hash principal decision reason at found open_row = ground (
    arith,
    eq_iff request.id request.id,
    find-update (λ r. r.id) request.id request.id still_pending
        (with_outcome (decided_status decision) at principal reason) s.requests,
    require_request_lem env (decided env request.id hash principal decision reason at s) request.id
        (with_outcome (decided_status decision) at principal reason row),
  )

  -- A decidable request: `decide` sets the outcome, spends the capability, logs the decision, and
  -- returns the request as it then stands.
  pub decide_accepts :
      (s : Store) (raw principal : String) (decision : ApprovalDecision) (reason : Option String)
      (hash : String)
      → hash_capability env raw ≡ ok hash
      → (d : IsDecidable s hash principal (env.clock s.clock_reads))
      → decide env raw principal decision reason s ≡ (
        ok (
            to_request env (
              with_outcome
                (decided_status decision)
                (env.clock s.clock_reads)
                principal
                (Option.map env.sanitize_error reason)
                d.row)),
        decided env d.row.id hash principal decision
            (Option.map env.sanitize_error reason)
            (env.clock s.clock_reads)
            (now env s).1,
      )
  unfolding decide transaction select_request now to_request ◌>>=◌
  decide_accepts s raw principal decision reason hash e d =
      let at : ℕ = env.clock s.clock_reads in
      let same = key-find (λ r. r.id) d.capability.request_id s.requests d.row d.found_row in
      ground (
        arith,
        expire_row_if_due_lem env (now env s).1 d.capability.request_id d.row at d.found_row,
        eq_iff d.capability.principal_id principal,
        apply_decision_lem (now env s).1 (to_request env d.row) d.row hash principal decision
            (Option.map env.sanitize_error reason) at
            (subst (λ k. find_request k s.requests ≡ some d.row) (sym same) d.found_row),
      )

  accepted_facts :
      (s : Store) (raw principal : String) (decision : ApprovalDecision) (reason : Option String)
      (hash : String) (result : ApprovalRequest) (capability : CapabilityRow) (row : RequestRow)
      → hash_capability env raw ≡ ok hash
      → find_capability hash s.capabilities ≡ some capability
      → find_request capability.request_id s.requests ≡ some row
      → (decide env raw principal decision reason s).0 ≡ ok result
      → (capability.used_at ≡ none)
        × (capability.principal_id ≡ principal)
        × (env.clock s.clock_reads < capability.expires_at)
        × (row.status ≡ ApprovalStatus.pending)
        × (env.clock s.clock_reads < row.expires_at)
  unfolding decide transaction select_request now to_request ◌>>=◌
  accepted_facts s raw principal decision reason hash result capability row e found found_row h =
      ground (
        arith,
        expire_row_if_due_lem env (now env s).1 capability.request_id row (env.clock s.clock_reads),
        eq_iff capability.principal_id principal,
      )

  -- Only what is there can be decided.
  accepted_capability :
      (s : Store) (raw principal : String) (decision : ApprovalDecision) (reason : Option String)
      (hash : String) (result : ApprovalRequest)
      → hash_capability env raw ≡ ok hash
      → (decide env raw principal decision reason s).0 ≡ ok result
      → (capability : CapabilityRow) × (find_capability hash s.capabilities ≡ some capability)
  unfolding decide transaction now ◌>>=◌
  accepted_capability s raw principal decision reason hash result e h =
      elim (Option-cases (find_capability hash s.capabilities)) [
        | inl missing ↦ absurd (ground arith)
        | inr (capability, found) ↦ (capability, found)
      ]

  accepted_row :
      (s : Store) (raw principal : String) (decision : ApprovalDecision) (reason : Option String)
      (hash : String) (result : ApprovalRequest) (capability : CapabilityRow)
      → hash_capability env raw ≡ ok hash
      → find_capability hash s.capabilities ≡ some capability
      → (decide env raw principal decision reason s).0 ≡ ok result
      → (row : RequestRow) × (find_request capability.request_id s.requests ≡ some row)
  unfolding decide transaction select_request now ◌>>=◌
  accepted_row s raw principal decision reason hash result capability e found h =
      elim (Option-cases (find_request capability.request_id s.requests)) [
        | inl missing ↦ absurd (ground arith)
        | inr (row, found_row) ↦ (row, found_row)
      ]

  pub accepted-IsDecidable :
      (s : Store) (raw principal : String) (decision : ApprovalDecision) (reason : Option String)
      (hash : String) (result : ApprovalRequest)
      → hash_capability env raw ≡ ok hash
      → (decide env raw principal decision reason s).0 ≡ ok result
      → IsDecidable s hash principal (env.clock s.clock_reads)
  accepted-IsDecidable s raw principal decision reason hash result e h =
      let (capability, found) =
        accepted_capability s raw principal decision reason hash result e h in
      let (row, found_row) =
        accepted_row s raw principal decision reason hash result capability e found h in
      let facts =
        accepted_facts s raw principal decision reason hash result capability row e found found_row
          h in
      record {
        capability = capability;
        row = row;
        found = found;
        found_row = found_row;
        unused = facts.0;
        assigned = facts.1;
        valid = facts.2;
        open_row = facts.3;
        in_time = facts.4;
      }

  -- For a well-formed capability text, `decide` returns a request exactly when the capability is
  -- stored, unused, assigned to the principal and not expired, and its request is pending and not due.
  pub decide_iff :
      (s : Store) (raw principal : String) (decision : ApprovalDecision) (reason : Option String)
      (hash : String)
      → hash_capability env raw ≡ ok hash
      → ((result : ApprovalRequest) × ((decide env raw principal decision reason s).0 ≡ ok result))
        ↔ IsDecidable s hash principal (env.clock s.clock_reads)
  decide_iff s raw principal decision reason hash e = (
    λ accepted. accepted-IsDecidable s raw principal decision reason hash accepted.0 e accepted.1,
    λ d. (_, ap (λ p. p.0) (decide_accepts s raw principal decision reason hash e d)),
  )
