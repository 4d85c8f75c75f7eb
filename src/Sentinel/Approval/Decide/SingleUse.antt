-- ===== src/Sentinel/Approval/Decide/SingleUse.antt =====
-- A capability of packages/sentinel/src/approval/ApprovalStore.ts decides once.
use mcp_suite.Common.{
  ℕ, String, ◌≡◌, refl, subst, sym, is_some, true, Option, some, List, arith, eq_iff, inl, inr,
}
use mcp_suite.Effect.{ok, err, Result-cases, ◌>>=◌}
use mcp_suite.Table.{find-update}
use mcp_suite.Sentinel.Approval.Evolution.{
  Evolves-preorder, Evolves, Evolves-request, Evolves-capability,
}
use mcp_suite.Sentinel.Approval.Evolution.Statements.{Evolves-steps}
use mcp_suite.Sentinel.Approval.Methods.{decide-Respects}
use mcp_suite.Sentinel.Approval.Calls.{Call, run, run-Evolves}
use mcp_suite.Sentinel.Approval.Sql.Equations.{expire_row_if_due_lem}
use mcp_suite.Sentinel.Approval.Sql.{find_request, find_capability, transaction, select_request}
use mcp_suite.Sentinel.Approval.Model.{
  ApprovalDecision, ApprovalRequest, transition, capability_used, CapabilityRow, RequestRow, Store,
  Env,
}
use mcp_suite.Sentinel.Approval.Input.{now, hash_capability}
use mcp_suite.Sentinel.Approval.Decide.{decide}
use mcp_suite.Sentinel.Approval.Decide.Accepts.{IsDecidable, decide_accepts, accepted-IsDecidable}

-- The capability was used, and its request is there.
record IsSpent (s : Store) (hash : String) : Type 0 where
  capability : CapabilityRow
  row : RequestRow
  found : find_capability hash s.capabilities ≡ some capability
  found_row : find_request capability.request_id s.requests ≡ some row
  used : is_some capability.used_at ≡ true

Evolves-IsSpent : (s t : Store) (hash : String) → Evolves s t → IsSpent s hash → IsSpent t hash
Evolves-IsSpent s t hash v p =
    let (c, found, later) = Evolves-capability s t hash p.capability v p.found in
    let (row, found_row, _) = Evolves-request s t p.capability.request_id p.row v p.found_row in
    record {
      capability = c;
      row = row;
      found = found;
      found_row =
          subst (λ k. find_request k t.requests ≡ some row) (sym later.same_request) found_row;
      used = later.still_used p.used;
    }

module _ (env : Env) where
  spent_refuses :
      (s : Store) (raw principal : String) (decision : ApprovalDecision) (reason : Option String)
      (hash : String)
      → hash_capability env raw ≡ ok hash
      → (p : IsSpent s hash)
      → (decide env raw principal decision reason s).0 ≡ err (transition capability_used)
  unfolding decide transaction select_request now ◌>>=◌
  spent_refuses s raw principal decision reason hash e p = ground (
    arith,
    p.found,
    p.found_row,
    p.used,
    expire_row_if_due_lem env (now env s).1 p.capability.request_id p.row (env.clock s.clock_reads),
  )

  accepted-IsSpent :
      (s : Store) (raw principal : String) (decision : ApprovalDecision) (reason : Option String)
      (hash : String)
      → hash_capability env raw ≡ ok hash
      → (d : IsDecidable s hash principal (env.clock s.clock_reads))
      → IsSpent (decide env raw principal decision reason s).1 hash
  unfolding now
  accepted-IsSpent s raw principal decision reason hash e d =
      let at : ℕ = env.clock s.clock_reads in
      let after = (decide env raw principal decision reason s).1 in
      let (row, found_row, _) =
        Evolves-request s after d.capability.request_id d.row
          ((decide-Respects env {R = Evolves} ⦃given = Evolves-steps env⦄ raw principal decision
              reason).at
            s)
          d.found_row in
      record {
        capability = record d.capability { used_at = some at };
        row = row;
        found = rw (decide_accepts env s raw principal decision reason hash e d) (
            ground (
              arith,
              eq_iff hash hash,
              find-update (λ c. c.capability_hash) hash hash (λ c. true)
                  (λ c. record c { used_at = some at }) s.capabilities,
            ));
        found_row = found_row;
        used = refl;
      }

  accepted_hash :
      (s : Store) (raw principal : String) (decision : ApprovalDecision) (reason : Option String)
      (result : ApprovalRequest)
      → (decide env raw principal decision reason s).0 ≡ ok result
      → (hash : String) × (hash_capability env raw ≡ ok hash)
  unfolding decide now ◌>>=◌
  accepted_hash s raw principal decision reason result h =
      elim (Result-cases (hash_capability env raw)) [
        | inl (hash, e) ↦ (hash, e)
        | inr (x, e) ↦ absurd (ground arith)
      ]

  -- After a decision was accepted, every later use of the same capability text throws
  -- `capability_used`, whatever calls come in between.
  pub decide_once :
      (s : Store) (raw first second : String) (decision again : ApprovalDecision)
      (reason other : Option String) (result : ApprovalRequest) (calls : List Call)
      → (decide env raw first decision reason s).0 ≡ ok result
      → (decide env raw second again other
          (run env (decide env raw first decision reason s).1 calls)).0
        ≡ err (transition capability_used)
  decide_once s raw first second decision again reason other result calls h =
      let (hash, e) = accepted_hash s raw first decision reason result h in
      let d = accepted-IsDecidable env s raw first decision reason hash result e h in
      spent_refuses _ raw second again other hash e (
        Evolves-IsSpent (decide env raw first decision reason s).1 _ hash (run-Evolves env _ calls)
          (accepted-IsSpent s raw first decision reason hash e d))
