-- ===== src/Sentinel/Approval/Evolution/Statements.antt =====
-- Each statement of packages/sentinel/src/approval/ApprovalStore.ts, and the transaction around a
-- method, keeps what the tables have recorded.
use mcp_suite.Common.{
  ℕ, String, ◌≡◌, refl, true, Option, some, arith, is_some, inl, inr, Bool-cases, Option-cases,
  Extends-refl, Extends-append,
}
use mcp_suite.Effect.{Result, ok, err}
use mcp_suite.Effect.Respects.{Respects}
use mcp_suite.Effect.Respects.{respects_rules}
use mcp_suite.Sentinel.Approval.Methods.{Steps}
use mcp_suite.Table.{KeysUnique, KeysUnique-update, KeysUnique-append}
use mcp_suite.Sentinel.Approval.Model.{
  ApprovalDecision, ApprovalRequest, ApprovalStatus, ApprovalEventType, Error, RequestRow, Store,
  Env, Action,
}
use mcp_suite.Sentinel.Approval.Input.{now}
use mcp_suite.Sentinel.Approval.Sql.{
  transition_pending, require_request, transaction, settle, find_request, find_capability,
  insert_request, update_pending, insert_capability, insert_event, capability_row, still_pending,
  with_outcome, select_request, select_by_idempotency_key,
}
use mcp_suite.Sentinel.Approval.Create.{random_uuid, new_row}
use mcp_suite.Sentinel.Approval.Decide.{mark_used, apply_decision}
use mcp_suite.Sentinel.Approval.Claim.{apply_claim, update_claim, unclaimed, with_claim}
use mcp_suite.Sentinel.Approval.Evolution.{
  Evolves, Evolves-refl, Evolves-preorder, RowEvolves, RowEvolves-refl, CapabilityEvolves,
  CapabilityEvolves-refl, MayBecome-refl, update-MayBecome, append-MayBecome,
}

settle-Evolves :
    {A : Type 0} (r : Result Error A) (s t : Store) → Evolves s t → Evolves s (settle r s t).1
settle-Evolves (ok a) s t h = h
settle-Evolves (err e) s t h =
    let same = Evolves-refl s in
    record {
      requests = same.requests;
      capabilities = same.capabilities;
      log = same.log;
      unique = same.unique;
    }

pub transaction-Evolves :
    {A : Type 0} (body : Action A) → Respects Evolves body → Respects Evolves (transaction body)
unfolding transaction
transaction-Evolves body h = record { at = λ s. settle-Evolves (body s).0 s (body s).1 (h.at s) }

-- A step that leaves the database as it was.
pub unchanged-Evolves : (s t : Store) → t.database ≡ s.database → Evolves s t
unchanged-Evolves s t same = record {
  requests = λ k. rw same (MayBecome-refl RowEvolves RowEvolves-refl (find_request k s.requests));
  capabilities = λ h.
      rw same (
        MayBecome-refl CapabilityEvolves CapabilityEvolves-refl (find_capability h s.capabilities));
  log = rw same (Extends-refl s.events);
  unique = λ u. rw same u;
}

pub select_request-Evolves : (id : String) → Respects Evolves (select_request id)
unfolding select_request
select_request-Evolves id = record { at = λ s. Evolves-refl s }

pub select_by_idempotency_key-Evolves :
    (key : String) → Respects Evolves (select_by_idempotency_key key)
unfolding select_by_idempotency_key
select_by_idempotency_key-Evolves key = record { at = λ s. Evolves-refl s }

pub update_pending-Evolves :
    (id : String) (status : ApprovalStatus) (at : ℕ) (actor : String) (reason : Option String)
    → Respects Evolves (update_pending id status at actor reason)
unfolding update_pending
update_pending-Evolves id status at actor reason = record {
  at = λ s. record {
    requests = λ k.
        update-MayBecome (λ r. r.id) RowEvolves RowEvolves-refl id k still_pending
          (with_outcome status at actor reason) s.requests (λ r. refl)
          (λ r open_row. record {
            same_identity = refl;
            same_outcome = λ done. ground arith;
            same_claim = λ c. refl;
          });
    capabilities = (Evolves-refl s).capabilities;
    log = Extends-refl s.events;
    unique =
        KeysUnique-update (λ r. r.id) id still_pending (with_outcome status at actor reason)
          s.requests (λ r. refl);
  };
}

pub update_claim-Evolves :
    (id : String) (at : ℕ) (actor : String) → Respects Evolves (update_claim id at actor)
unfolding update_claim
update_claim-Evolves id at actor = record {
  at = λ s. record {
    requests = λ k.
        update-MayBecome (λ r. r.id) RowEvolves RowEvolves-refl id k unclaimed (with_claim at actor)
          s.requests (λ r. refl)
          (λ r free. record {
            same_identity = refl;
            same_outcome = λ done. refl;
            same_claim = λ c. ground arith;
          });
    capabilities = (Evolves-refl s).capabilities;
    log = Extends-refl s.events;
    unique =
        KeysUnique-update (λ r. r.id) id unclaimed (with_claim at actor) s.requests (λ r. refl);
  };
}

pub mark_used-Evolves : (hash : String) (at : ℕ) → Respects Evolves (mark_used hash at)
unfolding mark_used
mark_used-Evolves hash at = record {
  at = λ s. record {
    requests = (Evolves-refl s).requests;
    capabilities = λ h.
        update-MayBecome (λ c. c.capability_hash) CapabilityEvolves CapabilityEvolves-refl hash h
          (λ c. true) (λ c. record c { used_at = some at }) s.capabilities (λ c. refl)
          (λ c _. record {
            same_request = refl;
            same_principal = refl;
            same_expiry = refl;
            still_used = λ u. refl;
          });
    log = Extends-refl s.events;
    unique = λ u. u;
  };
}

insert_request_unique :
    (s : Store) (row : RequestRow)
    → KeysUnique (λ r. r.id) s.requests
    → KeysUnique (λ r. r.id) (insert_request row s).1.requests
unfolding insert_request
insert_request_unique s row u = elim (Option-cases (find_request row.id s.requests)) [
  | inl fresh ↦ ground (arith, KeysUnique-append (λ r. r.id) s.requests row fresh u)
  | inr (old, known) ↦ ground arith
]

pub insert_request-Evolves : (row : RequestRow) → Respects Evolves (insert_request row)
unfolding insert_request
insert_request-Evolves row = record {
  at = λ s. record {
    requests = λ k. ground (
      arith,
      append-MayBecome (λ r. r.id) RowEvolves RowEvolves-refl k s.requests row,
      MayBecome-refl RowEvolves RowEvolves-refl (find_request k s.requests),
    );
    capabilities = λ h. ground (
      arith,
      MayBecome-refl CapabilityEvolves CapabilityEvolves-refl (find_capability h s.capabilities),
    );
    log = ground (arith, Extends-refl s.events);
    unique = insert_request_unique s row;
  };
}

module _ (env : Env) where
  pub now-Evolves : Respects Evolves (now env)
  unfolding now
  now-Evolves = record { at = λ s. unchanged-Evolves s _ refl }

  pub insert_event-Evolves :
      (id : String) (type : ApprovalEventType) (status : ApprovalStatus)
      (actor reason : Option String)
      → Respects Evolves (insert_event env id type status actor reason)
  unfolding insert_event
  insert_event-Evolves id type status actor reason = record {
    at = λ s. record {
      requests = λ k.
          ground (arith, MayBecome-refl RowEvolves RowEvolves-refl (find_request k s.requests));
      capabilities = λ h. ground (
        arith,
        MayBecome-refl CapabilityEvolves CapabilityEvolves-refl (find_capability h s.capabilities),
      );
      log = elim (Bool-cases (is_some (find_request id s.requests))) [
        | inl known ↦ rw known (Extends-append s.events _)
        | inr unknown ↦ rw unknown (Extends-refl s.events)
      ];
      unique = λ u. ground arith;
    };
  }

  pub insert_capability-Evolves :
      (id principal hash : String) (expires_at : ℕ)
      → Respects Evolves (insert_capability env id principal hash expires_at)
  unfolding insert_capability
  insert_capability-Evolves id principal hash expires_at = record {
    at = λ s. record {
      requests = λ k.
          ground (arith, MayBecome-refl RowEvolves RowEvolves-refl (find_request k s.requests));
      capabilities = λ h. ground (
        arith,
        append-MayBecome (λ c. c.capability_hash) CapabilityEvolves CapabilityEvolves-refl h
            s.capabilities (capability_row hash id principal (env.clock s.clock_reads) expires_at),
        MayBecome-refl CapabilityEvolves CapabilityEvolves-refl (find_capability h s.capabilities),
      );
      log = ground (arith, Extends-refl s.events);
      unique = λ u. ground arith;
    };
  }

  pub uuid-Evolves : Respects Evolves (random_uuid env)
  unfolding random_uuid
  uuid-Evolves = record { at = λ s. unchanged-Evolves s _ refl }

ruleset statements = (
  respects_rules, update_pending-Evolves, update_claim-Evolves, mark_used-Evolves,
  select_request-Evolves, insert_event-Evolves,
)

module _ (env : Env) where
  transition_pending-Evolves :
      (id : String) (status : ApprovalStatus) (at : ℕ) (actor : String) (reason : Option String)
      (type : ApprovalEventType)
      → Respects Evolves (transition_pending env id status at actor reason type)
  unfolding transition_pending
  transition_pending-Evolves id status at actor reason type = search statements depth 8

  apply_decision-Evolves :
      (request : ApprovalRequest) (hash principal : String) (decision : ApprovalDecision)
      (reason : Option String) (at : ℕ)
      → Respects Evolves (apply_decision env request hash principal decision reason at)
  unfolding apply_decision require_request
  apply_decision-Evolves request hash principal decision reason at = search statements depth 20

  apply_claim-Evolves :
      (id actor : String) (at : ℕ) → Respects Evolves (apply_claim env id actor at)
  unfolding apply_claim
  apply_claim-Evolves id actor at = search statements depth 12

  pub Evolves-steps : Steps env Evolves
  Evolves-steps = record {
    transacted = λ {A} body h. transaction-Evolves body h;
    selected = select_request-Evolves;
    selected_by_key = select_by_idempotency_key-Evolves;
    clock_read = now-Evolves env;
    uuid_drawn = uuid-Evolves env;
    row_inserted = λ id input key fingerprint at.
        insert_request-Evolves (new_row env id input key fingerprint at);
    capability_inserted = insert_capability-Evolves env;
    event_inserted =
        λ id type status actor reason _ _. insert_event-Evolves env id type status actor reason;
    closed = λ id status at actor reason type _ _.
        transition_pending-Evolves id status at actor reason type;
    decision_applied = apply_decision-Evolves;
    claim_applied = apply_claim-Evolves;
  }
