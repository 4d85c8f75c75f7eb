-- ===== src/Sentinel/Approval/Audit/Statements.antt =====
-- The statements and steps of packages/sentinel/src/approval/ApprovalStore.ts keep the log in step
-- with the requests.
use mcp_suite.Common.{
  ℕ, ◌+◌, ◌++◌, [], ◌∷◌, eq_iff, String, ◌≡◌, refl, true, false, Option, none, some, arith, inl,
  inr, Option-cases, Bool-cases, is_some,
}
use mcp_suite.Effect.{Result, ok, err, ◌>>=◌}
use mcp_suite.Effect.Respects.{Kept, Kept-preorder, Respects}
use mcp_suite.Table.{update, find-update, update_idle, update_missing, changes}
use mcp_suite.Sentinel.Approval.Model.{
  ApprovalStatus, ApprovalDecision, ApprovalEventType, ApprovalRequest, RequestRow,
  NormalizedRequest, Error, Store, Env, Action, is_pending, is_terminal, decided_status,
  decided_event,
}
use mcp_suite.Sentinel.Approval.Input.{now}
use mcp_suite.Sentinel.Approval.Sql.{
  transaction, settle, select_request, select_by_idempotency_key, insert_request, insert_capability,
  insert_event, event_row, update_pending, transition_pending, still_pending, with_outcome,
  find_request, find_capability, key_taken, require_request,
}
use mcp_suite.Sentinel.Approval.Sql.Equations.{transition_pending_open, transition_pending_shut}
use mcp_suite.Sentinel.Approval.Create.{random_uuid, new_row}
use mcp_suite.Sentinel.Approval.Decide.{apply_decision}
use mcp_suite.Sentinel.Approval.Decide.Accepts.{apply_decision_lem}
use mcp_suite.Sentinel.Approval.Claim.{apply_claim, update_claim, unclaimed, with_claim}
use mcp_suite.Sentinel.Approval.Methods.{Steps, is_outcome, is_claim}
use mcp_suite.Sentinel.Approval.Audit.{
  IsAudited, quiet-Tallies, outcome-Tallies, claim-Tallies, insert-Tallies,
}

abbrev pub Audits : {A : Type 0} → Action A → Type 0
Audits = Respects (Kept IsAudited)

settle-IsAudited :
    {A : Type 0} (r : Result Error A) (s t : Store)
    → IsAudited s
    → IsAudited t
    → IsAudited (settle r s t).1
settle-IsAudited (ok a) s t h k = k
settle-IsAudited (err e) s t h k = h

pub transaction-Audits : {A : Type 0} (body : Action A) → Audits body → Audits (transaction body)
unfolding transaction
transaction-Audits body h = record {
  at = λ s. record { keep = λ v. settle-IsAudited (body s).0 s (body s).1 v ((h.at s).keep v) };
}

pub select_request-Audits : (id : String) → Audits (select_request id)
unfolding select_request
select_request-Audits id = record { at = λ s. record { keep = λ v. v } }

pub select_by_idempotency_key-Audits : (key : String) → Audits (select_by_idempotency_key key)
unfolding select_by_idempotency_key
select_by_idempotency_key-Audits key = record { at = λ s. record { keep = λ v. v } }

insert_request-IsAudited :
    (s : Store) (row : RequestRow)
    → is_pending row.status ≡ true
    → row.execution_claimed_at ≡ none
    → IsAudited s
    → IsAudited (insert_request row s).1
unfolding insert_request
insert_request-IsAudited s row open_row free v =
    elim (Option-cases (find_request row.id s.requests)) [
      | inr (old, known) ↦ rw known v
      | inl fresh ↦ elim (Bool-cases (key_taken row.idempotency_key s.requests)) [
        | inl taken ↦ rw (fresh, taken) v
        | inr unique ↦
            rw (fresh, unique) (insert-Tallies s.requests s.events v row fresh open_row free)
      ]
    ]

update_pending-missing :
    (s : Store) (id : String) (status : ApprovalStatus) (at : ℕ) (actor : String)
    (reason : Option String)
    → find_request id s.requests ≡ none
    → update_pending id status at actor reason s ≡ (ok 0, s)
unfolding update_pending changes
update_pending-missing s id status at actor reason missing = ground (
  arith,
  update_missing (λ r. r.id) id still_pending (with_outcome status at actor reason) s.requests,
)

pub insert_capability-Audits :
    (env : Env) (id principal hash : String) (expires_at : ℕ)
    → Audits (insert_capability env id principal hash expires_at)
unfolding insert_capability
insert_capability-Audits env id principal hash expires_at = record {
  at = λ s. record {
    keep = λ v. elim (Bool-cases (is_some (find_capability hash s.capabilities))) [
      | inl taken ↦ rw taken v
      | inr fresh ↦ elim (Bool-cases (is_some (find_request id s.requests))) [
        | inl known ↦ rw (fresh, known) v
        | inr unknown ↦ rw (fresh, unknown) v
      ]
    ];
  };
}

module _ (env : Env) where
  pub now-Audits : Audits (now env)
  unfolding now
  now-Audits = record { at = λ s. record { keep = λ v. v } }

  pub uuid-Audits : Audits (random_uuid env)
  unfolding random_uuid
  uuid-Audits = record { at = λ s. record { keep = λ v. v } }

  pub insert_new-Audits :
      (id : String) (input : NormalizedRequest) (key : Option String) (fingerprint : String)
      (at : ℕ)
      → Audits (insert_request (new_row env id input key fingerprint at))
  unfolding new_row
  insert_new-Audits id input key fingerprint at = record {
    at = λ s. record {
      keep = insert_request-IsAudited s (new_row env id input key fingerprint at) refl refl;
    };
  }

  pub insert_event-Audits :
      (id : String) (type : ApprovalEventType) (status : ApprovalStatus)
      (actor reason : Option String)
      → is_outcome type ≡ false
      → is_claim type ≡ false
      → Audits (insert_event env id type status actor reason)
  unfolding insert_event
  insert_event-Audits id type status actor reason o c = record {
    at = λ s. record {
      keep = λ v. elim (Bool-cases (is_some (find_request id s.requests))) [
        | inl known ↦ rw known (quiet-Tallies s.requests s.events v _ o c)
        | inr unknown ↦ rw unknown v
      ];
    };
  }

  transition_pending-IsAudited :
      (s : Store) (id : String) (status : ApprovalStatus) (at : ℕ) (actor : String)
      (reason : Option String) (type : ApprovalEventType)
      → is_terminal status ≡ true
      → is_outcome type ≡ true
      → IsAudited s
      → IsAudited (transition_pending env id status at actor reason type s).1
  unfolding transition_pending ◌>>=◌
  transition_pending-IsAudited s id status at actor reason type terminal o v =
      elim (Option-cases (find_request id s.requests)) [
        | inl missing ↦ rw (terminal, update_pending-missing s id status at actor reason missing) v
        | inr (row, found) ↦ elim (Bool-cases (is_pending row.status)) [
          | inl open_row ↦
              rw
                (transition_pending_open env s id row status at actor reason type found open_row
                  terminal)
                (outcome-Tallies s.requests s.events v id row status at actor reason type _ _ found
                  open_row terminal o)
          | inr shut ↦
              rw
                (transition_pending_shut env s id row status at actor reason type found shut
                  terminal)
                v
        ]
      ]

  pub transition_pending-Audits :
      (id : String) (status : ApprovalStatus) (at : ℕ) (actor : String) (reason : Option String)
      (type : ApprovalEventType)
      → is_terminal status ≡ true
      → is_outcome type ≡ true
      → Audits (transition_pending env id status at actor reason type)
  transition_pending-Audits id status at actor reason type terminal o = record {
    at = λ s. record {
      keep = transition_pending-IsAudited s id status at actor reason type terminal o;
    };
  }

  -- A decision on a request that is no longer pending writes nothing.
  apply_decision-idle :
      (s : Store) (request : ApprovalRequest) (hash principal : String)
      (decision : ApprovalDecision) (reason : Option String) (at : ℕ)
      → update_pending request.id (decided_status decision) at principal reason s ≡ (ok 0, s)
      → (apply_decision env request hash principal decision reason at s).1 ≡ s
  unfolding apply_decision require_request select_request ◌>>=◌
  apply_decision-idle s request hash principal decision reason at idle = ground arith

  update_pending-shut :
      (s : Store) (id : String) (row : RequestRow) (status : ApprovalStatus) (at : ℕ)
      (actor : String) (reason : Option String)
      → find_request id s.requests ≡ some row
      → is_pending row.status ≡ false
      → update_pending id status at actor reason s ≡ (ok 0, s)
  unfolding update_pending changes
  update_pending-shut s id row status at actor reason found shut = ground (
    arith,
    update_idle (λ r. r.id) id still_pending (with_outcome status at actor reason) s.requests row,
  )

  decision_ends :
      (decision : ApprovalDecision)
      → (is_terminal (decided_status decision) ≡ true)
        × (is_outcome (decided_event decision) ≡ true)
  decision_ends ApprovalDecision.approved = (refl, refl)
  decision_ends ApprovalDecision.denied = (refl, refl)

  apply_decision-IsAudited :
      (s : Store) (request : ApprovalRequest) (hash principal : String)
      (decision : ApprovalDecision) (reason : Option String) (at : ℕ)
      → IsAudited s
      → IsAudited (apply_decision env request hash principal decision reason at s).1
  apply_decision-IsAudited s request hash principal decision reason at v =
      elim (Option-cases (find_request request.id s.requests)) [
        | inl missing ↦
            rw
              (apply_decision-idle s request hash principal decision reason at (
                update_pending-missing s request.id (decided_status decision) at principal reason
                  missing))
              v
        | inr (row, found) ↦ elim (Bool-cases (is_pending row.status)) [
          | inl open_row ↦
              rw
                (apply_decision_lem env s request row hash principal decision reason at found
                  open_row)
                (outcome-Tallies s.requests s.events v request.id row (decided_status decision) at
                  principal reason (decided_event decision) _ _ found open_row
                  (decision_ends decision).0 (decision_ends decision).1)
          | inr shut ↦
              rw
                (apply_decision-idle s request hash principal decision reason at (
                  update_pending-shut s request.id row (decided_status decision) at principal reason
                    found shut))
                v
        ]
      ]

  pub apply_decision-Audits :
      (request : ApprovalRequest) (hash principal : String) (decision : ApprovalDecision)
      (reason : Option String) (at : ℕ)
      → Audits (apply_decision env request hash principal decision reason at)
  apply_decision-Audits request hash principal decision reason at = record {
    at =
        λ s. record { keep = apply_decision-IsAudited s request hash principal decision reason at };
  }

  -- The writes of a claim: on a request that is free, the claim and its event; otherwise none.
  apply_claim_free :
      (s : Store) (id actor : String) (at : ℕ) (row : RequestRow)
      → find_request id s.requests ≡ some row
      → unclaimed row ≡ true
      → apply_claim env id actor at s ≡ (
        ok true,
        record s {
          clock_reads = s.clock_reads + 1;
          database = record s.database {
            requests = update (λ r. r.id) id unclaimed (with_claim at actor) s.requests;
            events =
                s.events
                ++ event_row s.next_event_id id ApprovalEventType.execution_claimed
                    ApprovalStatus.approved
                    (some actor)
                    none
                    (env.clock s.clock_reads)
                  ∷ [];
            next_event_id = s.next_event_id + 1;
          };
        },
      )
  unfolding apply_claim update_claim changes insert_event ◌>>=◌
  apply_claim_free s id actor at row found free = ground (
    arith,
    eq_iff id id,
    find-update (λ r. r.id) id id unclaimed (with_claim at actor) s.requests,
  )

  apply_claim_idle :
      (s : Store) (id actor : String) (at : ℕ)
      → update (λ r. r.id) id unclaimed (with_claim at actor) s.requests ≡ s.requests
      → changes (λ r. r.id) id unclaimed s.requests ≡ 0
      → (apply_claim env id actor at s).1 ≡ s
  unfolding apply_claim update_claim ◌>>=◌
  apply_claim_idle s id actor at same none_changed = ground arith

  apply_claim-IsAudited :
      (s : Store) (id actor : String) (at : ℕ)
      → IsAudited s
      → IsAudited (apply_claim env id actor at s).1
  unfolding changes
  apply_claim-IsAudited s id actor at v = elim (Option-cases (find_request id s.requests)) [
    | inl missing ↦
        rw
          (apply_claim_idle s id actor at
            (update_missing (λ r. r.id) id unclaimed (with_claim at actor) s.requests missing)
            (ground arith))
          v
    | inr (row, found) ↦ elim (Bool-cases (unclaimed row)) [
      | inl free ↦
          rw (apply_claim_free s id actor at row found free)
            (claim-Tallies s.requests s.events v id row at actor _ _ found free)
      | inr taken ↦
          rw
            (apply_claim_idle s id actor at
              (update_idle (λ r. r.id) id unclaimed (with_claim at actor) s.requests row found
                taken)
              (ground arith))
            v
    ]
  ]

  pub apply_claim-Audits : (id actor : String) (at : ℕ) → Audits (apply_claim env id actor at)
  apply_claim-Audits id actor at = record {
    at = λ s. record { keep = apply_claim-IsAudited s id actor at };
  }

  pub Audits-steps : Steps env (Kept IsAudited)
  Audits-steps = record {
    transacted = λ {A} body h. transaction-Audits body h;
    selected = select_request-Audits;
    selected_by_key = select_by_idempotency_key-Audits;
    clock_read = now-Audits;
    uuid_drawn = uuid-Audits;
    row_inserted = insert_new-Audits;
    capability_inserted = insert_capability-Audits env;
    event_inserted = insert_event-Audits;
    closed = transition_pending-Audits;
    decision_applied = apply_decision-Audits;
    claim_applied = apply_claim-Audits;
  }
