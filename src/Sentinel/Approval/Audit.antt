-- ===== src/Sentinel/Approval/Audit.antt =====
-- The event log of packages/sentinel/src/approval/ApprovalStore.ts against the request table: what the
-- log says of the outcome and the claim of each request.
pub mod Statements
use mcp_suite.Common.{
  ℕ, String, ◌≡◌, refl, Bool, true, false, ◌&&◌, Option, none, some, List, [], ◌∷◌, ◌++◌, arith,
  ◌==◌, eq_iff, if◌then◌else◌, is_some,
}
use mathlib.Core.List.{append-nil}
use mcp_suite.Table.{find, update, find-update, find-append}
use mcp_suite.Sentinel.Approval.Model.{
  ApprovalStatus, ApprovalEventType, RequestRow, EventRow, Store, is_pending, is_approved,
  is_terminal,
}
use mcp_suite.Sentinel.Approval.Sql.{find_request, still_pending, with_outcome, event_row}
use mcp_suite.Sentinel.Approval.Methods.{is_outcome, is_claim}
use mcp_suite.Sentinel.Approval.Claim.{unclaimed, with_claim}

abbrev pub Outcome : Type 0
Outcome = ApprovalStatus × Option String × Option String

-- The outcomes that the log records for request `k`: status, actor and reason.
unfoldable pub outcomes : String → List EventRow → List Outcome
outcomes k [] = []
outcomes k (e ∷ es) =
    let rest = outcomes k es in
    if e.request_id == k && is_outcome e.event_type
    then (e.status, e.actor_principal_id, e.reason) ∷ rest
    else rest

-- The actors whose claims the log records for request `k`.
unfoldable pub claims : String → List EventRow → List (Option String)
claims k [] = []
claims k (e ∷ es) =
    let rest = claims k es in
    if e.request_id == k && is_claim e.event_type then e.actor_principal_id ∷ rest else rest

-- What the log should record, by the row.
abbrev pub outcome_of : Option RequestRow → List Outcome
outcome_of none = []
outcome_of (some r) = if is_pending r.status then [] else (r.status, r.decided_by, r.reason) ∷ []

abbrev pub claim_of : Option RequestRow → List (Option String)
claim_of none = []
claim_of (some r) = if is_some r.execution_claimed_at then r.execution_claimed_by ∷ [] else []

abbrev pub approved_if_claimed : Option RequestRow → Bool
approved_if_claimed none = true
approved_if_claimed (some r) = if is_some r.execution_claimed_at then is_approved r.status else true

pub record Tallies (requests : List RequestRow) (events : List EventRow) : Type 0 where
  pub outcome : (k : String) → outcomes k events ≡ outcome_of (find_request k requests)
  pub claim : (k : String) → claims k events ≡ claim_of (find_request k requests)
  pub approved : (k : String) → approved_if_claimed (find_request k requests) ≡ true

-- Each request that has ended has one outcome event, with its status, its actor and its reason, and no
-- other request has any; each claim has one event, of an approved request.
abbrev pub IsAudited : Store → Type 0
IsAudited s = Tallies s.requests s.events

outcomes-append :
    (k : String) (es : List EventRow) (e : EventRow)
    → outcomes k (es ++ e ∷ []) ≡ outcomes k es ++ outcomes k (e ∷ [])
unfolding outcomes
outcomes-append k [] e = refl
outcomes-append k (x ∷ es) e = ground (arith, outcomes-append k es e)

claims-append :
    (k : String) (es : List EventRow) (e : EventRow)
    → claims k (es ++ e ∷ []) ≡ claims k es ++ claims k (e ∷ [])
unfolding claims
claims-append k [] e = refl
claims-append k (x ∷ es) e = ground (arith, claims-append k es e)

module _ (requests : List RequestRow) (events : List EventRow) (h : Tallies requests events) where
  -- An event that records neither an outcome nor a claim.
  pub quiet-Tallies :
      (e : EventRow)
      → is_outcome e.event_type ≡ false
      → is_claim e.event_type ≡ false
      → Tallies requests (events ++ e ∷ [])
  unfolding outcomes claims
  quiet-Tallies e o c = record {
    outcome = λ k.
        ground (arith, h.outcome k, outcomes-append k events e, append-nil (outcomes k events));
    claim = λ k. ground (arith, h.claim k, claims-append k events e, append-nil (claims k events));
    approved = h.approved;
  }

  -- The outcome of a pending request, with its event.
  pub outcome-Tallies :
      (id : String) (row : RequestRow) (status : ApprovalStatus) (at : ℕ) (actor : String)
      (reason : Option String) (type : ApprovalEventType) (n t : ℕ)
      → find_request id requests ≡ some row
      → is_pending row.status ≡ true
      → is_terminal status ≡ true
      → is_outcome type ≡ true
      → Tallies
          (update (λ r. r.id) id still_pending (with_outcome status at actor reason) requests)
          (events ++ event_row n id type status (some actor) reason t ∷ [])
  unfolding outcomes claims
  outcome-Tallies id row status at actor reason type n t found open_row terminal o = record {
    outcome = λ k. ground (
      arith,
      eq_iff id k,
      eq_iff id id,
      h.outcome k,
      outcomes-append k events (event_row n id type status (some actor) reason t),
      find-update (λ r. r.id) id k still_pending (with_outcome status at actor reason) requests,
    );
    claim = λ k. ground (
      arith,
      eq_iff id k,
      h.claim k,
      claims-append k events (event_row n id type status (some actor) reason t),
      find-update (λ r. r.id) id k still_pending (with_outcome status at actor reason) requests,
    );
    approved = λ k. ground (
      arith,
      eq_iff id k,
      h.approved k,
      find-update (λ r. r.id) id k still_pending (with_outcome status at actor reason) requests,
    );
  }

  -- The claim of an approved request that has none, with its event.
  pub claim-Tallies :
      (id : String) (row : RequestRow) (at : ℕ) (actor : String) (n t : ℕ)
      → find_request id requests ≡ some row
      → unclaimed row ≡ true
      → Tallies (update (λ r. r.id) id unclaimed (with_claim at actor) requests) (
          events
          ++ event_row n id ApprovalEventType.execution_claimed ApprovalStatus.approved
              (some actor)
              none
              t
            ∷ [])
  unfolding outcomes claims
  claim-Tallies id row at actor n t found free =
      let e =
        event_row n id ApprovalEventType.execution_claimed ApprovalStatus.approved (some actor) none
          t in
      record {
        outcome = λ k. ground (
          arith,
          eq_iff id k,
          h.outcome k,
          outcomes-append k events e,
          append-nil (outcomes k events),
          find-update (λ r. r.id) id k unclaimed (with_claim at actor) requests,
        );
        claim = λ k. ground (
          arith,
          eq_iff id k,
          h.claim k,
          claims-append k events e,
          find-update (λ r. r.id) id k unclaimed (with_claim at actor) requests,
        );
        approved = λ k. ground (
          arith,
          eq_iff id k,
          h.approved k,
          find-update (λ r. r.id) id k unclaimed (with_claim at actor) requests,
        );
      }

  -- A new request, pending and unclaimed.
  pub insert-Tallies :
      (row : RequestRow)
      → find_request row.id requests ≡ none
      → is_pending row.status ≡ true
      → row.execution_claimed_at ≡ none
      → Tallies (requests ++ row ∷ []) events
  insert-Tallies row fresh open_row free = record {
    outcome =
        λ k. ground (arith, h.outcome k, eq_iff row.id k, find-append (λ r. r.id) k requests row);
    claim = λ k. ground (arith, h.claim k, eq_iff row.id k, find-append (λ r. r.id) k requests row);
    approved =
        λ k. ground (arith, h.approved k, eq_iff row.id k, find-append (λ r. r.id) k requests row);
  }
