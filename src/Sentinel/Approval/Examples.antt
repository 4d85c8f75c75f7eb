-- ===== src/Sentinel/Approval/Examples.antt =====
-- A small platform and small databases, on which the theorems about
-- packages/sentinel/src/approval/ApprovalStore.ts are applied.
use mcp_suite.Common.{
  ℕ, ◌+◌, ◌≡◌, ◌≢◌, eq_iff, ◌↔◌, refl, true, false, Option, none, some, [], ◌∷◌, String, arith,
  trim, utf16_length,
}
use mathlib.Core.Option
use mcp_suite.Effect.{ok, err, is_ok, ◌>>=◌}
use mcp_suite.Json.{end}
use mcp_suite.Table.{find}
use mcp_suite.Sentinel.Approval.Model.{
  ApprovalRequest, ApprovalStatus, ApprovalDecision, transition, capability_used, invalid_request,
  CreateApprovalRequest, NormalizedRequest, ApprovalCreationResult, RequestRow, CapabilityRow,
  Store, Env, Platform, Redactor, empty_database,
}
use mcp_suite.Sentinel.Approval.Input.{
  now, normalize_identifier, normalize_channels, normalize_create_input, hash_capability,
  hash_idempotency_key, hash_approval_request, stable_json,
}
use mcp_suite.Sentinel.Approval.Sql.{
  find_request, transaction, with_outcome, to_request, insert_event, find_by_key, insert_request,
  insert_capability, require_request,
}
use mcp_suite.Sentinel.Approval.Sql.Equations.{lapsed_row, lapsed}
use mcp_suite.Sentinel.Approval.Create.{new_row, fingerprint_of, create_or_reuse}
use mcp_suite.Sentinel.Approval.Create.Issues.{Decides, create_or_reuse-Decides}
use mcp_suite.Sentinel.Approval.Create.Reuse.{create_or_reuse_same, create_or_reuse_conflict}
use mcp_suite.Sentinel.Approval.Decide.{decide}
use mcp_suite.Sentinel.Approval.Decide.Accepts.{IsDecidable, decided, decide_accepts, decide_iff}
use mcp_suite.Sentinel.Approval.Decide.SingleUse.{decide_once}
use mcp_suite.Sentinel.Approval.Claim.{claim_execution}
use mcp_suite.Sentinel.Approval.Claim.Grants.{
  IsClaimable, claim_execution_iff, claim_execution_once,
}
use mcp_suite.Sentinel.Approval.Expiry.{expire_due}
use mcp_suite.Sentinel.Approval.Expiry.Sweep.{expire_due_lem}
use mcp_suite.Sentinel.Approval.Evolution.{Evolves}
use mcp_suite.Sentinel.Approval.Audit
use mcp_suite.Sentinel.Approval.Audit.{IsAudited}
use mcp_suite.Sentinel.Approval.Calls.{claims, expires_due, run, run-Evolves, run-IsAudited}

abbrev pub platform : Platform
platform = record {
  clock = λ n. 1000 + n;
  uuid = λ n. "request-1";
  sha256 = λ s. s;
  stringify = λ v. "[]";
  parse = λ s. none;
  parse_request = λ s. none;
  to_iso_string = λ t. "";
  locale_le = λ a b. true;
}

abbrev pub redactor : Redactor
redactor = record {
  sanitize_request = λ r. record { request = r; serialized = "{}" };
  sanitize_error = λ s. s;
}

abbrev pub env : Env
env = record { platform = platform; redactor = redactor }

abbrev pub row_in : ApprovalStatus → RequestRow
row_in status = record {
  id = "request-1";
  idempotency_key = none;
  request_fingerprint = some "fingerprint";
  requester_principal_id = "alice";
  approver_principal_id = "bob";
  tool_name = "deploy";
  request_json = "{}";
  channels_json = "[]";
  status = status;
  created_at = 900;
  expires_at = 5000;
  upstream_expires_at = none;
  decided_at = none;
  decided_by = none;
  reason = none;
  execution_claimed_at = none;
  execution_claimed_by = none;
}

abbrev pub unused_capability : CapabilityRow
unused_capability = record {
  capability_hash = "capability-1";
  request_id = "request-1";
  principal_id = "bob";
  created_at = 900;
  expires_at = 5000;
  used_at = none;
}

-- One request with this status, and an unused capability for it.
abbrev pub store_with : ApprovalStatus → Store
store_with status = record {
  database = record {
    requests = row_in status ∷ [];
    capabilities = unused_capability ∷ [];
    events = [];
    next_event_id = 1;
  };
  clock_reads = 0;
  uuids_drawn = 0;
}

abbrev pub pending_store : Store
pending_store = store_with ApprovalStatus.pending

abbrev approved_store : Store
approved_store = store_with ApprovalStatus.approved

abbrev empty_store : Store
empty_store = record { database = empty_database; clock_reads = 0; uuids_drawn = 0 }

bob_decides : hash_capability env "capability-1" ≡ ok "capability-1"
unfolding hash_capability utf16_length
bob_decides = refl

alice_is_well_formed : normalize_identifier "alice" 200 ≡ ok "alice"
unfolding normalize_identifier trim utf16_length
alice_is_well_formed = refl

decidable : IsDecidable pending_store "capability-1" "bob" 1000
unfolding find
decidable = record {
  capability = unused_capability;
  row = row_in ApprovalStatus.pending;
  found = refl;
  found_row = refl;
  unused = refl;
  assigned = refl;
  valid = omega arith;
  open_row = refl;
  in_time = omega arith;
}

claim_granted : (claim_execution env "request-1" "alice" approved_store).0 ≡ ok true
claim_granted =
    (claim_execution_iff env approved_store "request-1" "alice" "alice" alice_is_well_formed).1 (
      unfold find in
      record {
        row = row_in ApprovalStatus.approved;
        found = refl;
        approved = refl;
        requester = refl;
        free = refl;
      })

claim_execution_iff_example :
    ((claim_execution env "request-1" "alice" approved_store).0 ≡ ok true)
    ↔ IsClaimable approved_store "request-1" "alice"
claim_execution_iff_example =
    claim_execution_iff env approved_store "request-1" "alice" "alice" alice_is_well_formed

claim_execution_once_example :
    (claim_execution env "request-1" "alice"
      (run env (claim_execution env "request-1" "alice" approved_store).1 (expires_due ∷ []))).0
    ≢ ok true
claim_execution_once_example =
    claim_execution_once env approved_store "request-1" "alice" "alice" (expires_due ∷ [])
      claim_granted

decide_accepts_example :
    decide env "capability-1" "bob" ApprovalDecision.denied none pending_store ≡ (
      ok (
          to_request env
            (with_outcome ApprovalStatus.denied 1000 "bob" none (row_in ApprovalStatus.pending))),
      decided env "request-1" "capability-1" "bob" ApprovalDecision.denied none 1000
          (now env pending_store).1,
    )
unfolding decidable
decide_accepts_example =
    decide_accepts env pending_store "capability-1" "bob" ApprovalDecision.denied none
      "capability-1" bob_decides decidable

decide_iff_example :
    ((result : ApprovalRequest) × ((decide env "capability-1" "bob" ApprovalDecision.approved none
          pending_store).0
        ≡ ok result))
    ↔ IsDecidable pending_store "capability-1" "bob" 1000
decide_iff_example =
    decide_iff env pending_store "capability-1" "bob" ApprovalDecision.approved none "capability-1"
      bob_decides

decide_once_example :
    (decide env "capability-1" "bob" ApprovalDecision.denied none (
      run env
        (decide env "capability-1" "bob" ApprovalDecision.approved none pending_store).1
        (claims "request-1" "alice" ∷ []))).0
    ≡ err (transition capability_used)
decide_once_example =
    decide_once env pending_store "capability-1" "bob" "bob" ApprovalDecision.approved
      ApprovalDecision.denied none none _ (claims "request-1" "alice" ∷ [])
      ((decide_iff env pending_store "capability-1" "bob" ApprovalDecision.approved none
          "capability-1" bob_decides).1
        decidable).1

run-Evolves_example : Evolves pending_store (run env pending_store (expires_due ∷ []))
run-Evolves_example = run-Evolves env pending_store (expires_due ∷ [])

empty-IsAudited : IsAudited empty_store
unfolding find Audit.outcomes Audit.claims
empty-IsAudited = record { outcome = λ k. refl; claim = λ k. refl; approved = λ k. refl }

run-IsAudited_example : IsAudited (run env empty_store (claims "request-1" "alice" ∷ []))
run-IsAudited_example =
    run-IsAudited env empty_store (claims "request-1" "alice" ∷ []) empty-IsAudited

expire_due_lem_example :
    (find_request "request-1" (expire_due env pending_store).1.requests
      ≡ Option.map (lapsed_row 1000) (find_request "request-1" pending_store.requests))
    × (is_ok (expire_due env pending_store).0 ≡ true)
expire_due_lem_example =
    expire_due_lem env pending_store "request-1" (omega arith) (omega arith, tt)
      (unfold find in (refl, tt))

abbrev input_with : Option String → CreateApprovalRequest
input_with key = record {
  requester_principal_id = "alice";
  approver_principal_id = "bob";
  request = record { tool = "deploy"; input = end; headers = [] };
  channels = "chat" ∷ [];
  expires_at = some 9000;
  upstream_expires_at = none;
  idempotency_key = key;
}

abbrev normalized_with : Option String → NormalizedRequest
normalized_with key = record {
  requester_principal_id = "alice";
  approver_principal_id = "bob";
  request = record { tool = "deploy"; input = end; headers = [] };
  channels = "chat" ∷ [];
  expires_at = 9000;
  upstream_expires_at = none;
  idempotency_key = key;
}

valid_input :
    normalize_create_input env (input_with (some "key-1")) empty_store
    ≡ (ok (normalized_with (some "key-1")), record empty_store { clock_reads = 2 })
unfolding normalize_create_input normalize_identifier normalize_channels trim utf16_length ◌>>=◌
valid_input = refl

abbrev first_result : ApprovalCreationResult
first_result = record {
  request = to_request env (
      new_row env "request-1" (normalized_with none) none
        (fingerprint_of env (normalized_with none)) 1002);
  capability_issued = true;
}

first_created :
    (create_or_reuse env (input_with none) "capability-2" empty_store).0 ≡ ok first_result
unfolding create_or_reuse normalize_create_input hash_capability ◌>>=◌ normalize_identifier trim
    utf16_length normalize_channels transaction insert_request find new_row insert_event
    insert_capability require_request
first_created = refl

capability_2 : hash_capability env "capability-2" ≡ ok "capability-2"
unfolding hash_capability utf16_length
capability_2 = refl

create_or_reuse-Decides_example :
    Decides
      (create_or_reuse env (input_with none) "capability-2" empty_store).1
      "capability-2"
      first_result.request.id
      "bob"
      8999
unfolding to_request new_row
create_or_reuse-Decides_example =
    create_or_reuse-Decides env empty_store (input_with none) "capability-2" "capability-2"
      first_result 8999 capability_2 first_created refl (omega arith)

-- The requests table holds this row, made for the first key of alice.
abbrev keyed_row : String → RequestRow
keyed_row fingerprint = record (row_in ApprovalStatus.pending) {
  idempotency_key = some "alice\0key-1";
  request_fingerprint = some fingerprint;
}

abbrev keyed_store : String → ℕ → Store
keyed_store fingerprint reads = record pending_store {
  clock_reads = reads;
  database = record pending_store.database { requests = keyed_row fingerprint ∷ [] };
}

abbrev keyed_input : NormalizedRequest
keyed_input = normalized_with (some "key-1")

valid_again :
    (fingerprint : String)
    → normalize_create_input env (input_with (some "key-1")) (keyed_store fingerprint 0)
      ≡ (ok keyed_input, keyed_store fingerprint 2)
unfolding normalize_create_input normalize_identifier normalize_channels trim utf16_length ◌>>=◌
valid_again fingerprint = refl

create_or_reuse_same_example :
    create_or_reuse env
      (input_with (some "key-1"))
      "capability-2"
      (keyed_store (fingerprint_of env keyed_input) 0)
    ≡ (
      ok (record {
        request = to_request env (lapsed_row 1002 (keyed_row (fingerprint_of env keyed_input)));
        capability_issued = false;
      }),
      lapsed env
          (keyed_row (fingerprint_of env keyed_input))
          1002
          (keyed_store (fingerprint_of env keyed_input) 3),
    )
unfolding hash_idempotency_key find_by_key now
create_or_reuse_same_example =
    create_or_reuse_same env (keyed_store (fingerprint_of env keyed_input) 0)
      (keyed_store (fingerprint_of env keyed_input) 2) (input_with (some "key-1")) "capability-2"
      "capability-2" "alice\0key-1" keyed_input (keyed_row (fingerprint_of env keyed_input))
      capability_2 (valid_again _) refl (unfold find in (refl, tt)) refl refl

create_or_reuse_conflict_example :
    create_or_reuse env (input_with (some "key-1")) "capability-2" (keyed_store "other" 0)
    ≡ (err (transition invalid_request), keyed_store "other" 2)
unfolding hash_idempotency_key hash_approval_request stable_json find_by_key
create_or_reuse_conflict_example =
    create_or_reuse_conflict env (keyed_store "other" 0) (keyed_store "other" 2)
      (input_with (some "key-1")) "capability-2" "capability-2" "alice\0key-1" "other" keyed_input
      (keyed_row "other") capability_2 (valid_again "other") refl refl refl
      (ground (arith, eq_iff "other" "[]"))
