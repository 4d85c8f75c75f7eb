-- ===== src/Sentinel/Approval/Create/Issues.antt =====
-- What `createOrReuse` of packages/sentinel/src/approval/ApprovalStore.ts writes and returns.
use mcp_suite.Common.{
  ℕ, ◌+◌, ◌<◌, String, ◌≡◌, refl, subst, true, false, Option, none, some, [], ◌∷◌, ◌++◌, arith,
  eq_iff, Option-cases, inl, inr,
}
use mcp_suite.Effect.{ok, is_ok, Result-cases, ◌>>=◌}
use mcp_suite.Table.{find-append}
use mcp_suite.Sentinel.Approval.Model.{
  ApprovalStatus, ApprovalEventType, CreateApprovalRequest, NormalizedRequest,
  ApprovalCreationResult, RequestRow, CapabilityRow, Store, Env,
}
use mcp_suite.Sentinel.Approval.Input.{now, hash_capability, normalize_create_input}
use mcp_suite.Sentinel.Approval.Sql.{
  transaction, find_request, find_capability, find_by_key, key_taken, insert_request, insert_event,
  insert_capability, capability_row, event_row, select_by_idempotency_key, to_request,
}
use mcp_suite.Sentinel.Approval.Sql.Equations.{require_request_lem, transaction_committed}
use mcp_suite.Sentinel.Approval.Create.{
  new_row, random_uuid, create_row, reuse_row, create_or_reuse_body, create_or_reuse, scoped_key,
  fingerprint_of,
}
use mcp_suite.Sentinel.Approval.Decide.Accepts.{IsDecidable}

-- The capability with this hash can be used by the principal at this time, for the request with this id.
pub record Decides (s : Store) (hash id principal : String) (at : ℕ) : Type 0 where
  pub decidable : IsDecidable s hash principal at
  pub own : decidable.capability.request_id ≡ id

abbrev with_row : RequestRow → Store → Store
with_row row s = record s { database = record s.database { requests = s.requests ++ row ∷ [] } }

abbrev with_capability : CapabilityRow → Store → Store
with_capability c s = record s {
  clock_reads = s.clock_reads + 1;
  database = record s.database { capabilities = s.capabilities ++ c ∷ [] };
}

insert_request_lem :
    (s : Store) (row : RequestRow)
    → find_request row.id s.requests ≡ none
    → key_taken row.idempotency_key s.requests ≡ false
    → insert_request row s ≡ (ok tt, with_row row s)
unfolding insert_request
insert_request_lem s row fresh free = rw (fresh, free)

insert_request_refuses :
    (s : Store) (row : RequestRow)
    → is_ok (insert_request row s).0 ≡ true
    → (find_request row.id s.requests ≡ none) × (key_taken row.idempotency_key s.requests ≡ false)
unfolding insert_request
insert_request_refuses s row h = ground arith

module _ (env : Env) where
  abbrev logged : String → ApprovalEventType → Option String → Store → Store
  logged id type actor s = record s {
    clock_reads = s.clock_reads + 1;
    database = record s.database {
      events =
          s.events
          ++ event_row s.next_event_id id type ApprovalStatus.pending actor none
              (env.clock s.clock_reads)
            ∷ [];
      next_event_id = s.next_event_id + 1;
    };
  }

  insert_event_lem :
      (s : Store) (id : String) (row : RequestRow) (type : ApprovalEventType)
      (actor : Option String)
      → find_request id s.requests ≡ some row
      → insert_event env id type ApprovalStatus.pending actor none s
        ≡ (ok tt, logged id type actor s)
  unfolding insert_event
  insert_event_lem s id row type actor found = rw found

  abbrev issued_row : String → String → String → ℕ → Store → CapabilityRow
  issued_row hash id principal expires_at s =
      capability_row hash id principal (env.clock s.clock_reads) expires_at

  insert_capability_lem :
      (s : Store) (id principal hash : String) (expires_at : ℕ) (row : RequestRow)
      → find_capability hash s.capabilities ≡ none
      → find_request id s.requests ≡ some row
      → insert_capability env id principal hash expires_at s
        ≡ (ok tt, with_capability (issued_row hash id principal expires_at s) s)
  unfolding insert_capability
  insert_capability_lem s id principal hash expires_at row fresh found = rw (fresh, found)

  insert_capability_refuses :
      (s : Store) (id principal hash : String) (expires_at : ℕ)
      → is_ok (insert_capability env id principal hash expires_at s).0 ≡ true
      → find_capability hash s.capabilities ≡ none
  unfolding insert_capability
  insert_capability_refuses s id principal hash expires_at h = ground arith

  module _ (s : Store) (input : NormalizedRequest) (key : Option String)
      (fingerprint hash : String) where
    abbrev new_id : String
    new_id = env.uuid s.uuids_drawn

    abbrev stored : RequestRow
    stored = new_row env new_id input key fingerprint (env.clock s.clock_reads)

    abbrev at_insert : Store
    at_insert = record s { clock_reads = s.clock_reads + 1; uuids_drawn = s.uuids_drawn + 1 }

    abbrev after_created : Store
    after_created =
        logged new_id ApprovalEventType.created (some input.requester_principal_id)
          (with_row stored at_insert)

    abbrev after_capability : Store
    after_capability =
        with_capability
          (issued_row hash new_id input.approver_principal_id input.expires_at after_created)
          after_created

    abbrev after_issued : Store
    after_issued = logged new_id ApprovalEventType.capability_issued none after_capability

    find-stored :
        find_request new_id s.requests ≡ none
        → find_request new_id (s.requests ++ stored ∷ []) ≡ some stored
    unfolding new_row
    find-stored fresh =
        ground (arith, find-append (λ r. r.id) new_id s.requests stored, eq_iff new_id new_id)

    stored_fields : (stored.id ≡ new_id) × (stored.idempotency_key ≡ key)
    unfolding new_row
    stored_fields = (refl, refl)

    -- The id, the key and the capability are new: everything is stored.
    create_row_fresh :
        find_request new_id s.requests ≡ none
        → key_taken key s.requests ≡ false
        → find_capability hash s.capabilities ≡ none
        → create_row env input key fingerprint hash s ≡ (
          ok (record { request = to_request env stored; capability_issued = true }),
          after_issued,
        )
    unfolding create_row random_uuid now new_row ◌>>=◌
    create_row_fresh fresh free unissued = ground (
      arith,
      insert_request_lem at_insert stored,
      find-stored fresh,
      insert_event_lem (with_row stored at_insert) new_id stored ApprovalEventType.created
          (some input.requester_principal_id),
      insert_capability_lem after_created new_id input.approver_principal_id hash input.expires_at
          stored unissued,
      insert_event_lem after_capability new_id stored ApprovalEventType.capability_issued none,
      require_request_lem env after_issued new_id stored,
    )

    create_row_new :
        is_ok (create_row env input key fingerprint hash s).0 ≡ true
        → (find_request new_id s.requests ≡ none) × (key_taken key s.requests ≡ false)
    unfolding create_row random_uuid now new_row ◌>>=◌
    create_row_new h = ground (arith, insert_request_refuses at_insert stored)

    create_row_unissued :
        find_request new_id s.requests ≡ none
        → key_taken key s.requests ≡ false
        → is_ok (create_row env input key fingerprint hash s).0 ≡ true
        → find_capability hash s.capabilities ≡ none
    unfolding create_row random_uuid now new_row ◌>>=◌
    create_row_unissued fresh free h = ground (
      arith,
      insert_request_lem at_insert stored,
      find-stored fresh,
      insert_event_lem (with_row stored at_insert) new_id stored ApprovalEventType.created
          (some input.requester_principal_id),
      insert_capability_refuses after_created new_id input.approver_principal_id hash
          input.expires_at,
    )

    -- A creation that returns found everything new.
    create_row_lem :
        is_ok (create_row env input key fingerprint hash s).0 ≡ true
        → create_row env input key fingerprint hash s ≡ (
          ok (record { request = to_request env stored; capability_issued = true }),
          after_issued,
        )
    create_row_lem h =
        let (fresh, free) = create_row_new h in
        create_row_fresh fresh free (create_row_unissued fresh free h)

    -- What was just stored can be decided by the approver until it expires.
    created-Decides :
        (at : ℕ)
        → is_ok (create_row env input key fingerprint hash s).0 ≡ true
        → at < input.expires_at
        → Decides after_issued hash new_id input.approver_principal_id at
    unfolding new_row
    created-Decides at h early =
        let (fresh, free) = create_row_new h in
        let unissued = create_row_unissued fresh free h in
        let c = issued_row hash new_id input.approver_principal_id input.expires_at after_created in
        record {
          own = refl;
          decidable = record {
            capability = c;
            row = stored;
            found = ground (
              arith,
              find-append (λ x. x.capability_hash) hash s.capabilities c,
              eq_iff hash hash,
            );
            found_row = find-stored fresh;
            unused = refl;
            assigned = refl;
            valid = early;
            open_row = refl;
            in_time = early;
          };
        }

module _ (env : Env) where
  reuse_row_issues_none :
      (s : Store) (row : RequestRow) (fingerprint : String) (result : ApprovalCreationResult)
      → (reuse_row env row fingerprint s).0 ≡ ok result
      → result.capability_issued ≡ false
  unfolding reuse_row now ◌>>=◌
  reuse_row_issues_none s row fingerprint result h = ground arith

  -- A capability is issued only with a new row.
  body_creates :
      (s : Store) (input : NormalizedRequest) (key : Option String) (fingerprint hash : String)
      (result : ApprovalCreationResult)
      → (create_or_reuse_body env input key fingerprint hash s).0 ≡ ok result
      → result.capability_issued ≡ true
      → create_or_reuse_body env input key fingerprint hash s
        ≡ create_row env input key fingerprint hash s
  unfolding create_or_reuse_body select_by_idempotency_key ◌>>=◌
  body_creates s input none fingerprint hash result h issued = refl
  body_creates s input (some key) fingerprint hash result h issued =
      elim (Option-cases (find_by_key key s.requests)) [
        | inl unused ↦ rw unused
        | inr (row, known) ↦ absurd (ground (arith, reuse_row_issues_none s row fingerprint result))
      ]

  issued_body :
      (s : Store) (input : NormalizedRequest) (key : Option String) (fingerprint hash : String)
      (result : ApprovalCreationResult) (at : ℕ)
      → (create_or_reuse_body env input key fingerprint hash s).0 ≡ ok result
      → result.capability_issued ≡ true
      → at < result.request.expires_at
      → Decides
          (create_or_reuse_body env input key fingerprint hash s).1
          hash
          result.request.id
          result.request.approver_principal_id
          at
  unfolding to_request new_row
  issued_body s input key fingerprint hash result at h issued early =
      let creates = body_creates s input key fingerprint hash result h issued in
      let returned : (create_row env input key fingerprint hash s).0 ≡ ok result =
        rw creates at h in
      let done : is_ok (create_row env input key fingerprint hash s).0 ≡ true = rw returned in
      let whole = create_row_lem env s input key fingerprint hash done in
      let approver : input.approver_principal_id ≡ result.request.approver_principal_id =
        ground arith in
      let id : env.uuid s.uuids_drawn ≡ result.request.id = ground arith in
      let expiry : input.expires_at ≡ result.request.expires_at = ground arith in
      rw (creates, whole)
        (subst
          (λ k.
            Decides (after_issued env s input key fingerprint hash) hash k
              result.request.approver_principal_id at)
          id
          (subst
            (λ p.
              Decides (after_issued env s input key fingerprint hash) hash (env.uuid s.uuids_drawn)
                p at)
            approver (created-Decides env s input key fingerprint hash at done (omega arith))))

  -- When `createOrReuse` issues a capability, the raw text that the caller passed decides the returned
  -- request: for its approver, at any time before it expires.
  pub create_or_reuse-Decides :
      (s : Store) (input : CreateApprovalRequest) (raw hash : String)
      (result : ApprovalCreationResult) (at : ℕ)
      → hash_capability env raw ≡ ok hash
      → (create_or_reuse env input raw s).0 ≡ ok result
      → result.capability_issued ≡ true
      → at < result.request.expires_at
      → Decides
          (create_or_reuse env input raw s).1
          hash
          result.request.id
          result.request.approver_principal_id
          at
  unfolding create_or_reuse ◌>>=◌
  create_or_reuse-Decides s input raw hash result at e h issued early =
      elim (Result-cases (normalize_create_input env input s).0) [
        | inr (x, failed) ↦ absurd (ground arith)
        | inl (n, valid) ↦
            let t = (normalize_create_input env input s).1 in
            let body = create_or_reuse_body env n (scoped_key env n) (fingerprint_of env n) hash in
            let committed : (transaction body t).0 ≡ ok result = rw (valid, e) at h in
            let facts = transaction_committed body t committed in
            rw (valid, e, facts.1)
              (issued_body t n (scoped_key env n) (fingerprint_of env n) hash result at facts.0
                issued early)
      ]
