-- ===== src/Sentinel/Approval/Claim/Grants.antt =====
-- When `claimExecution` of packages/sentinel/src/approval/ApprovalStore.ts returns true.
use mcp_suite.Common.{
  String, ◌≡◌, refl, ap, ◌∙◌, ◌↔◌, ◌≢◌, is_some, true, none, some, List, arith, eq_iff,
  Option-cases, inl, inr,
}
use mcp_suite.Effect.{ok, Result-cases, ◌>>=◌}
use mcp_suite.Table.{changes, find-update}
use mcp_suite.Sentinel.Approval.Model.{ApprovalStatus, ApprovalEventType, RequestRow, Store, Env}
use mcp_suite.Sentinel.Approval.Input.{now, normalize_identifier}
use mcp_suite.Sentinel.Approval.Sql.Equations.{expire_row_if_due_lem, find-closed}
use mcp_suite.Sentinel.Approval.Sql.{
  timeout_actor, expired_reason, find_request, transaction, select_request, expire_row_if_due,
  insert_event, to_request,
}
use mcp_suite.Sentinel.Approval.Evolution.{Evolves, Evolves-request}
use mcp_suite.Sentinel.Approval.Calls.{Call, run, run-Evolves}
use mcp_suite.Sentinel.Approval.Claim.{claim_execution, update_claim, unclaimed, with_claim}

-- The row is approved for this actor and nobody has claimed it.
pub record IsClaimable (s : Store) (id actor : String) : Type 0 where
  pub row : RequestRow
  pub found : find_request id s.requests ≡ some row
  pub approved : row.status ≡ ApprovalStatus.approved
  pub requester : row.requester_principal_id ≡ actor
  pub free : row.execution_claimed_at ≡ none

-- The row carries a claim.
abbrev pub IsClaimed : Store → String → Type 0
IsClaimed s id =
    (row : RequestRow) × (find_request id s.requests ≡ some row)
    × (is_some row.execution_claimed_at ≡ true)

module _ (env : Env) where
  claim_grants :
      (s : Store) (id principal actor : String)
      → normalize_identifier principal 200 ≡ ok actor
      → IsClaimable s id actor
      → (claim_execution env id principal s).0 ≡ ok true
  unfolding claim_execution transaction select_request expire_row_if_due update_claim insert_event
      changes now to_request ◌>>=◌
  claim_grants s id principal actor e c = ground (
    arith,
    find-update (λ r. r.id) id id unclaimed (with_claim (env.clock s.clock_reads) actor) s.requests,
    eq_iff id id,
    eq_iff c.row.requester_principal_id actor,
  )

  -- A claim that is granted found an approved row of this actor that nobody had claimed.
  granted_row :
      (s : Store) (id principal actor : String) (row : RequestRow)
      → normalize_identifier principal 200 ≡ ok actor
      → find_request id s.requests ≡ some row
      → (claim_execution env id principal s).0 ≡ ok true
      → (row.status ≡ ApprovalStatus.approved)
        × (row.requester_principal_id ≡ actor)
        × (row.execution_claimed_at ≡ none)
  unfolding claim_execution transaction select_request update_claim changes now to_request ◌>>=◌
  granted_row s id principal actor row e found h = ground (
    arith,
    expire_row_if_due_lem env (now env s).1 id row (env.clock s.clock_reads),
    eq_iff row.requester_principal_id actor,
    find-closed env (now env s).1 id row ApprovalStatus.expired (env.clock s.clock_reads)
        timeout_actor expired_reason ApprovalEventType.expired,
  )

  granted-IsClaimable :
      (s : Store) (id principal actor : String)
      → normalize_identifier principal 200 ≡ ok actor
      → (claim_execution env id principal s).0 ≡ ok true
      → IsClaimable s id actor
  unfolding claim_execution transaction select_request now ◌>>=◌
  granted-IsClaimable s id principal actor e h = elim (Option-cases (find_request id s.requests)) [
    | inl missing ↦ absurd (ground arith)
    | inr (row, found) ↦
        let facts = granted_row s id principal actor row e found h in
        record { row = row; found = found; approved = facts.0; requester = facts.1; free = facts.2 }
  ]

  -- For a well-formed principal, `claimExecution` returns true exactly when the request is there, is
  -- approved, was requested by this principal, and has not been claimed.
  pub claim_execution_iff :
      (s : Store) (id principal actor : String)
      → normalize_identifier principal 200 ≡ ok actor
      → ((claim_execution env id principal s).0 ≡ ok true) ↔ IsClaimable s id actor
  claim_execution_iff s id principal actor e =
      (granted-IsClaimable s id principal actor e, claim_grants s id principal actor e)

  -- The row after the claim was granted.
  granted_writes :
      (s : Store) (id principal actor : String) (row : RequestRow)
      → normalize_identifier principal 200 ≡ ok actor
      → find_request id s.requests ≡ some row
      → (claim_execution env id principal s).0 ≡ ok true
      → find_request id (claim_execution env id principal s).1.requests
        ≡ some (with_claim (env.clock s.clock_reads) actor row)
  unfolding claim_execution transaction select_request expire_row_if_due update_claim insert_event
      changes now to_request ◌>>=◌
  granted_writes s id principal actor row e found h = ground (
    arith,
    granted_row s id principal actor row e found h,
    eq_iff id id,
    find-update (λ r. r.id) id id unclaimed (with_claim (env.clock s.clock_reads) actor) s.requests,
  )

  granted_actor :
      (s : Store) (id principal : String)
      → (claim_execution env id principal s).0 ≡ ok true
      → (actor : String) × (normalize_identifier principal 200 ≡ ok actor)
  unfolding claim_execution ◌>>=◌
  granted_actor s id principal h = elim (Result-cases (normalize_identifier principal 200)) [
    | inl (actor, e) ↦ (actor, e)
    | inr (x, e) ↦ absurd (ground arith)
  ]

  granted-IsClaimed :
      (s : Store) (id principal : String)
      → (claim_execution env id principal s).0 ≡ ok true
      → IsClaimed (claim_execution env id principal s).1 id
  granted-IsClaimed s id principal h =
      let (actor, e) = granted_actor s id principal h in
      let c = granted-IsClaimable s id principal actor e h in
      (
        with_claim (env.clock s.clock_reads) actor c.row,
        granted_writes s id principal actor c.row e c.found h,
        refl,
      )

  claimed_refuses :
      (s : Store) (id principal : String)
      → IsClaimed s id
      → (claim_execution env id principal s).0 ≢ ok true
  claimed_refuses s id principal (row, found, taken) h =
      let (actor, e) = granted_actor s id principal h in
      let facts = granted_row s id principal actor row e found h in ground (arith, facts.2)

Evolves-IsClaimed : (s t : Store) (id : String) → Evolves s t → IsClaimed s id → IsClaimed t id
Evolves-IsClaimed s t id v (row, found, taken) =
    let (row', found', later) = Evolves-request s t id row v found in
    (row', found', ap (λ c. is_some c.0) (later.same_claim taken) ∙ taken)

module _ (env : Env) where
  -- Once a claim was granted, none is ever granted again for the request: whatever calls are made in
  -- between, by whatever principals.
  pub claim_execution_once :
      (s : Store) (id first second : String) (calls : List Call)
      → (claim_execution env id first s).0 ≡ ok true
      → (claim_execution env id second (run env (claim_execution env id first s).1 calls)).0
        ≢ ok true
  claim_execution_once s id first second calls h = claimed_refuses env _ id second (
      Evolves-IsClaimed (claim_execution env id first s).1 _ id (run-Evolves env _ calls)
        (granted-IsClaimed env s id first h))
