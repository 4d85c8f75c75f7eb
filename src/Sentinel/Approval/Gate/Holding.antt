-- ===== src/Sentinel/Approval/Gate/Holding.antt =====
-- The loop of `holdRequest` in packages/sentinel/src/approval/ApprovalGate.ts ends once the clock has
-- passed the expiry: each round reads the clock, and no call of the store takes a reading back.
use mcp_suite.Common.{ℕ, zero, suc, ◌+◌, ◌≤◌, String, ◌≡◌, ◌≢◌, Option, arith}
use mcp_suite.Effect.{Result, ok, err, ◌>>=◌}
use mcp_suite.Effect.Respects.{Preorder, Respects, respects_rules}
use mcp_suite.Sentinel.Approval.Model.{
  ApprovalStatus, ApprovalDecision, ApprovalEventType, ApprovalRequest, Error, Store, Env, Action,
}
use mcp_suite.Sentinel.Approval.Input.{now}
use mcp_suite.Sentinel.Approval.Sql.{
  settle, transaction, select_request, select_by_idempotency_key, insert_request, insert_capability,
  insert_event, transition_pending, update_pending, require_request,
}
use mcp_suite.Sentinel.Approval.Create.{random_uuid, new_row}
use mcp_suite.Sentinel.Approval.Decide.{apply_decision, mark_used}
use mcp_suite.Sentinel.Approval.Claim.{apply_claim, update_claim}
use mcp_suite.Sentinel.Approval.Read.{get}
use mcp_suite.Sentinel.Approval.Methods.{Steps}
use mcp_suite.Sentinel.Approval.Calls.{run-Respects}
use mcp_suite.Sentinel.Approval.Gate.{
  World, Gate, ApprovalConfig, out_of_fuel, hold_loop, on_store, pause, is_aborted,
  cancel_after_abort, cancel_request, after_cancel,
}

record ReadsGrow (s t : Store) : Type 0 where
  grows : s.clock_reads ≤ t.clock_reads

instance abbrev ReadsGrow-preorder : Preorder ReadsGrow
ReadsGrow-preorder = record {
  same = λ s. record { grows = omega arith };
  step = λ s t u p q. record { grows = omega (arith, p.grows, q.grows) };
}

settle-ReadsGrow :
    {A : Type 0} (r : Result Error A) (s t : Store) → ReadsGrow s t → ReadsGrow s (settle r s t).1
settle-ReadsGrow (ok a) s t h = h
settle-ReadsGrow (err e) s t h = record { grows = h.grows }

module _ (env : Env) where
  now-ReadsGrow : Respects ReadsGrow (now env)
  unfolding now
  now-ReadsGrow = record { at = λ s. record { grows = omega arith } }

  insert_event-ReadsGrow :
      (id : String) (type : ApprovalEventType) (status : ApprovalStatus)
      (actor reason : Option String)
      → Respects ReadsGrow (insert_event env id type status actor reason)
  unfolding insert_event
  insert_event-ReadsGrow id type status actor reason = record {
    at = λ s. record { grows = ground arith };
  }

  insert_capability-ReadsGrow :
      (id principal hash : String) (expires_at : ℕ)
      → Respects ReadsGrow (insert_capability env id principal hash expires_at)
  unfolding insert_capability
  insert_capability-ReadsGrow id principal hash expires_at = record {
    at = λ s. record { grows = ground arith };
  }

  update_pending-ReadsGrow :
      (id : String) (status : ApprovalStatus) (at : ℕ) (actor : String) (reason : Option String)
      → Respects ReadsGrow (update_pending id status at actor reason)
  unfolding update_pending
  update_pending-ReadsGrow id status at actor reason = record {
    at = λ s. record { grows = omega arith };
  }

  update_claim-ReadsGrow :
      (id : String) (at : ℕ) (actor : String) → Respects ReadsGrow (update_claim id at actor)
  unfolding update_claim
  update_claim-ReadsGrow id at actor = record { at = λ s. record { grows = omega arith } }

  mark_used-ReadsGrow : (hash : String) (at : ℕ) → Respects ReadsGrow (mark_used hash at)
  unfolding mark_used
  mark_used-ReadsGrow hash at = record { at = λ s. record { grows = omega arith } }

  require_request-ReadsGrow : (id : String) → Respects ReadsGrow (require_request env id)
  unfolding require_request select_request ◌>>=◌
  require_request-ReadsGrow id = record { at = λ s. record { grows = ground arith } }

  transition_pending-ReadsGrow :
      (id : String) (status : ApprovalStatus) (at : ℕ) (actor : String) (reason : Option String)
      (type : ApprovalEventType)
      → Respects ReadsGrow (transition_pending env id status at actor reason type)
  unfolding transition_pending
  transition_pending-ReadsGrow id status at actor reason type =
      search (respects_rules, update_pending-ReadsGrow, insert_event-ReadsGrow) depth 12

  apply_decision-ReadsGrow :
      (request : ApprovalRequest) (hash principal : String) (decision : ApprovalDecision)
      (reason : Option String) (at : ℕ)
      → Respects ReadsGrow (apply_decision env request hash principal decision reason at)
  unfolding apply_decision
  apply_decision-ReadsGrow request hash principal decision reason at =
      search
        (
          respects_rules, update_pending-ReadsGrow, insert_event-ReadsGrow, mark_used-ReadsGrow,
          require_request-ReadsGrow,
        )
        depth 12

  apply_claim-ReadsGrow :
      (id actor : String) (at : ℕ) → Respects ReadsGrow (apply_claim env id actor at)
  unfolding apply_claim
  apply_claim-ReadsGrow id actor at =
      search (respects_rules, update_claim-ReadsGrow, insert_event-ReadsGrow) depth 12

  unread :
      {A : Type 0} (m : Action A)
      → ((s : Store) → s.clock_reads ≤ (m s).1.clock_reads)
      → Respects ReadsGrow m
  unread m h = record { at = λ s. record { grows = h s } }

  instance ReadsGrow-steps : Steps env ReadsGrow
  unfolding transaction select_request select_by_idempotency_key random_uuid insert_request
  ReadsGrow-steps = record {
    transacted = λ body h. record { at = λ s. settle-ReadsGrow (body s).0 s (body s).1 (h.at s) };
    selected = λ id. unread (select_request id) (λ s. omega arith);
    selected_by_key = λ key. unread (select_by_idempotency_key key) (λ s. omega arith);
    clock_read = now-ReadsGrow;
    uuid_drawn = unread (random_uuid env) (λ s. omega arith);
    row_inserted = λ id input key fingerprint at.
        unread (insert_request (new_row env id input key fingerprint at)) (λ s. ground arith);
    capability_inserted = insert_capability-ReadsGrow;
    event_inserted =
        λ id type status actor reason o c. insert_event-ReadsGrow id type status actor reason;
    closed = λ id status at actor reason type e o.
        transition_pending-ReadsGrow id status at actor reason type;
    decision_applied = apply_decision-ReadsGrow;
    claim_applied = apply_claim-ReadsGrow;
  }

module _ (world : World) where
  on_store-grows :
      {A : Type 0} (m : Action A) (g : Gate)
      → Respects ReadsGrow m
      → g.approvals.clock_reads ≤ (on_store m g).1.approvals.clock_reads
  unfolding on_store
  on_store-grows m g h = (h.at g.approvals).grows

  on_store_returns : {A : Type 0} (m : Action A) (g : Gate) → (on_store m g).0 ≢ err out_of_fuel
  unfolding on_store
  on_store_returns m g h = ground arith

  cancel_after_abort_returns :
      (held : ApprovalRequest) (config : ApprovalConfig) (g : Gate)
      → (cancel_after_abort world held config g).0 ≢ err out_of_fuel
  unfolding cancel_after_abort cancel_request after_cancel on_store ◌>>=◌
  cancel_after_abort_returns held config g h = ground arith

  -- The state of the gate when a round that ends nothing begins the next.
  abbrev next_round : Gate → Gate
  next_round g =
      (pause world (record g {
        approvals = record g.approvals { clock_reads = g.approvals.clock_reads + 1 };
        looks = g.looks + 1;
      })).1

  next_round-grows : (g : Gate) → g.approvals.clock_reads + 1 ≤ (next_round g).approvals.clock_reads
  unfolding pause
  next_round-grows g =
      (run-Respects world.env ReadsGrow ⦃given = ReadsGrow-steps world.env⦄
        (record g.approvals { clock_reads = g.approvals.clock_reads + 1 })
        (world.meanwhile g.awaits)).grows

  due_round :
      (config : ApprovalConfig) (held : ApprovalRequest) (fuel : ℕ) (g : Gate)
      → held.expires_at ≤ world.env.clock g.approvals.clock_reads
      → (hold_loop world config held (suc fuel) g).0 ≢ err out_of_fuel
  unfolding hold_loop on_store now ◌>>=◌
  due_round config held fuel g due h = ground arith

  -- A round that is not the last leads to the next.
  other_round :
      (config : ApprovalConfig) (held : ApprovalRequest) (fuel : ℕ) (g : Gate)
      → (hold_loop world config held (suc fuel) g).0 ≡ err out_of_fuel
      → (hold_loop world config held fuel (next_round g)).0 ≡ err out_of_fuel
  unfolding hold_loop on_store now is_aborted pause get select_request ◌>>=◌
  other_round config held fuel g h = ground (
    arith,
    cancel_after_abort_returns held config (record g {
      approvals = record g.approvals { clock_reads = g.approvals.clock_reads + 1 };
      looks = g.looks + 1;
    }),
  )

  -- Whatever calls others make while the loop waits: where from the reading `last` on the clock shows
  -- the expiry or later, the loop ends within one round more than the readings left until then.
  pub hold_loop_ends :
      (config : ApprovalConfig) (held : ApprovalRequest) (last fuel : ℕ) (g : Gate)
      → ((n : ℕ) → last ≤ n → held.expires_at ≤ world.env.clock n)
      → last ≤ g.approvals.clock_reads + fuel
      → (hold_loop world config held (suc fuel) g).0 ≢ err out_of_fuel
  hold_loop_ends config held last zero g late enough h =
      due_round config held 0 g (late g.approvals.clock_reads (omega arith)) h
  hold_loop_ends config held last (suc fuel) g late enough h =
      hold_loop_ends config held last fuel (next_round g) late (omega (arith, next_round-grows g))
        (other_round config held (suc fuel) g h)
