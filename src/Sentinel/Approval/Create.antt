-- ===== src/Sentinel/Approval/Create.antt =====
-- `createOrReuse` of packages/sentinel/src/approval/ApprovalStore.ts.
pub mod Issues
pub mod Reuse
use mcp_suite.Common.{ℕ, ◌+◌, String, true, false, Option, none, some, ◌==◌, if◌then◌else◌, or_else}
use mathlib.Core.Option
use mcp_suite.Effect.{ok, raise, pure, lift, ◌>>=◌, ◌>>◌}
use mcp_suite.Json.{arr, texts}
use mcp_suite.Sentinel.Approval.Model.{
  ApprovalStatus, ApprovalEventType, invalid_request, transition, CreateApprovalRequest,
  NormalizedRequest, ApprovalCreationResult, RequestRow, Env, Action,
}
use mcp_suite.Sentinel.Approval.Input.{
  now, hash_capability, hash_idempotency_key, hash_approval_request, normalize_create_input,
}
use mcp_suite.Sentinel.Approval.Sql.{
  transaction, select_by_idempotency_key, insert_request, insert_capability, insert_event,
  require_request, expire_row_if_due,
}

module _ (env : Env) where
  unfoldable pub new_row : String → NormalizedRequest → Option String → String → ℕ → RequestRow
  new_row id input key fingerprint at = record {
    id = id;
    idempotency_key = key;
    request_fingerprint = some fingerprint;
    requester_principal_id = input.requester_principal_id;
    approver_principal_id = input.approver_principal_id;
    tool_name = (env.sanitize_request input.request).request.tool;
    request_json = (env.sanitize_request input.request).serialized;
    channels_json = env.stringify (arr (texts input.channels));
    status = ApprovalStatus.pending;
    created_at = at;
    expires_at = input.expires_at;
    upstream_expires_at = input.upstream_expires_at;
    decided_at = none;
    decided_by = none;
    reason = none;
    execution_claimed_at = none;
    execution_claimed_by = none;
  }

  unfoldable pub random_uuid : Action String
  random_uuid s = (ok (env.uuid s.uuids_drawn), record s { uuids_drawn = s.uuids_drawn + 1 })

  unfoldable pub create_row :
      NormalizedRequest → Option String → String → String → Action ApprovalCreationResult
  unfolding random_uuid
  create_row input key fingerprint capability_hash = do
    at ← now env
    id ← random_uuid
    insert_request (new_row id input key fingerprint at)
    insert_event env id ApprovalEventType.created ApprovalStatus.pending
        (some input.requester_principal_id) none
    insert_capability env id input.approver_principal_id capability_hash input.expires_at
    insert_event env id ApprovalEventType.capability_issued ApprovalStatus.pending none none
    request ← require_request env id
    pure (record { request = request; capability_issued = true })

  -- The row that a request with the same idempotency key made before.
  unfoldable pub reuse_row : RequestRow → String → Action ApprovalCreationResult
  reuse_row existing fingerprint =
      if or_else (Option.map (λ f. f == fingerprint) existing.request_fingerprint) false
      then (do
        at ← now env
        request ← expire_row_if_due env existing at
        pure (record { request = request; capability_issued = false }))
      else raise (transition invalid_request)

  -- What follows the search for a row with the same key.
  unfoldable pub reuse_or_create :
      NormalizedRequest
      → String
      → String
      → String
      → Option RequestRow
      → Action ApprovalCreationResult
  unfolding create_row reuse_row
  reuse_or_create input key fingerprint capability_hash (some existing) =
      reuse_row existing fingerprint
  reuse_or_create input key fingerprint capability_hash none =
      create_row input (some key) fingerprint capability_hash

  unfoldable pub create_or_reuse_body :
      NormalizedRequest → Option String → String → String → Action ApprovalCreationResult
  unfolding reuse_or_create
  create_or_reuse_body input none fingerprint capability_hash =
      create_row input none fingerprint capability_hash
  create_or_reuse_body input (some key) fingerprint capability_hash = do
    found ← select_by_idempotency_key key
    reuse_or_create input key fingerprint capability_hash found

  abbrev pub scoped_key : NormalizedRequest → Option String
  scoped_key input =
      Option.map (hash_idempotency_key env input.requester_principal_id) input.idempotency_key

  abbrev pub fingerprint_of : NormalizedRequest → String
  fingerprint_of input =
      hash_approval_request env input.requester_principal_id input.approver_principal_id
        (env.sanitize_request input.request).request input.channels input.upstream_expires_at

  unfoldable pub create_or_reuse : CreateApprovalRequest → String → Action ApprovalCreationResult
  unfolding create_or_reuse_body
  create_or_reuse input raw_capability = do
    normalized ← normalize_create_input env input
    capability_hash ← lift (hash_capability env raw_capability)
    transaction (
        create_or_reuse_body normalized (scoped_key normalized) (fingerprint_of normalized)
          capability_hash)
