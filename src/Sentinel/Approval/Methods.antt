-- ===== src/Sentinel/Approval/Methods.antt =====
-- Every method of packages/sentinel/src/approval/ApprovalStore.ts is put together from a few steps. A
-- relation between states that these steps respect is respected by each method.
use mcp_suite.Common.{ℕ, String, ◌≡◌, refl, Bool, true, false, Option, none, some, List, [], ◌∷◌}
use mcp_suite.Effect.Respects.{Preorder, Respects, Respects-bind, respects_rules}
use mcp_suite.Sentinel.Approval.Model.{
  ApprovalStatus, ApprovalEventType, ApprovalDecision, Error, ApprovalRequest, RequestRow,
  NormalizedRequest, CreateApprovalRequest, Store, Env, Action, is_terminal,
}
use mcp_suite.Sentinel.Approval.Input.{now, require_future, require_valid, normalize_create_input}
use mcp_suite.Sentinel.Approval.Sql.{
  transaction, select_request, select_by_idempotency_key, insert_request, insert_event,
  insert_capability, transition_pending, require_request, require_pending, expire_row_if_due,
}
use mcp_suite.Sentinel.Approval.Create.{
  random_uuid, new_row, create_row, reuse_or_create, create_or_reuse_body, create_or_reuse,
}
use mcp_suite.Sentinel.Approval.Dispatch.{record_dispatch, record_dispatch_failure}
use mcp_suite.Sentinel.Approval.Decide.{
  throw_or_return, apply_decision, decide_body, decide, cancel_body, cancel,
}
use mcp_suite.Sentinel.Approval.Claim.{apply_claim, claim_body, claim_execution}
use mcp_suite.Sentinel.Approval.Expiry.{
  timeout_status, timeout_event, expire_body, expire, expire_each, expire_due,
}
use mcp_suite.Sentinel.Approval.Read.{get, list}

-- The events that record the end of a request, and the one that records a claim.
abbrev pub is_outcome : ApprovalEventType → Bool
is_outcome ApprovalEventType.approved = true
is_outcome ApprovalEventType.denied = true
is_outcome ApprovalEventType.expired = true
is_outcome ApprovalEventType.cancelled = true
is_outcome _ = false

abbrev pub is_claim : ApprovalEventType → Bool
is_claim ApprovalEventType.execution_claimed = true
is_claim _ = false

pub record Steps (env : Env) (R : Store → Store → Type 0) : Type 1 where
  pub transacted : {A : Type 0} (body : Action A) → Respects R body → Respects R (transaction body)
  pub selected : (id : String) → Respects R (select_request id)
  pub selected_by_key : (key : String) → Respects R (select_by_idempotency_key key)
  pub clock_read : Respects R (now env)
  pub uuid_drawn : Respects R (random_uuid env)
  pub row_inserted :
      (id : String) (input : NormalizedRequest) (key : Option String) (fingerprint : String)
      (at : ℕ)
      → Respects R (insert_request (new_row env id input key fingerprint at))
  pub capability_inserted :
      (id principal hash : String) (expires_at : ℕ)
      → Respects R (insert_capability env id principal hash expires_at)
  pub event_inserted :
      (id : String) (type : ApprovalEventType) (status : ApprovalStatus)
      (actor reason : Option String)
      → is_outcome type ≡ false
      → is_claim type ≡ false
      → Respects R (insert_event env id type status actor reason)
  pub closed :
      (id : String) (status : ApprovalStatus) (at : ℕ) (actor : String) (reason : Option String)
      (type : ApprovalEventType)
      → is_terminal status ≡ true
      → is_outcome type ≡ true
      → Respects R (transition_pending env id status at actor reason type)
  pub decision_applied :
      (request : ApprovalRequest) (hash principal : String) (decision : ApprovalDecision)
      (reason : Option String) (at : ℕ)
      → Respects R (apply_decision env request hash principal decision reason at)
  pub claim_applied : (id actor : String) (at : ℕ) → Respects R (apply_claim env id actor at)

timeout_ends :
    (fail_open : Bool)
    → (is_terminal (timeout_status fail_open) ≡ true)
      × (is_outcome (timeout_event fail_open) ≡ true)
timeout_ends true = (refl, refl)
timeout_ends false = (refl, refl)

-- The fields, by names that a `ruleset` can list.
module _ (env : Env) {R : Store → Store → Type 0} ⦃given : Steps env R⦄ where
  step_transacted : {A : Type 0} (body : Action A) → Respects R body → Respects R (transaction body)
  step_transacted = given.transacted

  step_selected : (id : String) → Respects R (select_request id)
  step_selected = given.selected

  step_selected_by_key : (key : String) → Respects R (select_by_idempotency_key key)
  step_selected_by_key = given.selected_by_key

  step_clock_read : Respects R (now env)
  step_clock_read = given.clock_read

  step_uuid_drawn : Respects R (random_uuid env)
  step_uuid_drawn = given.uuid_drawn

  step_row_inserted :
      (id : String) (input : NormalizedRequest) (key : Option String) (fingerprint : String)
      (at : ℕ)
      → Respects R (insert_request (new_row env id input key fingerprint at))
  step_row_inserted = given.row_inserted

  step_capability_inserted :
      (id principal hash : String) (expires_at : ℕ)
      → Respects R (insert_capability env id principal hash expires_at)
  step_capability_inserted = given.capability_inserted

  step_event_inserted :
      (id : String) (type : ApprovalEventType) (status : ApprovalStatus)
      (actor reason : Option String)
      → is_outcome type ≡ false
      → is_claim type ≡ false
      → Respects R (insert_event env id type status actor reason)
  step_event_inserted = given.event_inserted

  step_closed :
      (id : String) (status : ApprovalStatus) (at : ℕ) (actor : String) (reason : Option String)
      (type : ApprovalEventType)
      → is_terminal status ≡ true
      → is_outcome type ≡ true
      → Respects R (transition_pending env id status at actor reason type)
  step_closed = given.closed

  step_decision_applied :
      (request : ApprovalRequest) (hash principal : String) (decision : ApprovalDecision)
      (reason : Option String) (at : ℕ)
      → Respects R (apply_decision env request hash principal decision reason at)
  step_decision_applied = given.decision_applied

  step_claim_applied : (id actor : String) (at : ℕ) → Respects R (apply_claim env id actor at)
  step_claim_applied = given.claim_applied

ruleset basic = (
  respects_rules, step_transacted, step_selected, step_selected_by_key, step_clock_read,
  step_uuid_drawn, step_row_inserted, step_capability_inserted, step_event_inserted, step_closed,
  step_decision_applied, step_claim_applied,
)

module _ (env : Env) {R : Store → Store → Type 0} ⦃o : Preorder R⦄ ⦃given : Steps env R⦄ where
  require_request-Respects : (id : String) → Respects R (require_request env id)
  unfolding require_request
  require_request-Respects id = search basic

  require_pending-Respects : (id : String) → Respects R (require_pending env id)
  unfolding require_pending
  require_pending-Respects id = search basic depth 8

ruleset steps = (basic, require_request-Respects, require_pending-Respects)

module _ (env : Env) {R : Store → Store → Type 0} ⦃o : Preorder R⦄ ⦃given : Steps env R⦄ where
  expire_row_if_due-Respects :
      (row : RequestRow) (at : ℕ) → Respects R (expire_row_if_due env row at)
  unfolding expire_row_if_due
  expire_row_if_due-Respects row at = search steps depth 8

  require_future-Respects : (t : Option ℕ) → Respects R (require_future env t)
  unfolding require_future
  require_future-Respects none = search steps
  require_future-Respects (some t) = search steps depth 8

  require_valid-Respects : (t : Option (Option ℕ)) → Respects R (require_valid env t)
  unfolding require_valid
  require_valid-Respects none = search steps
  require_valid-Respects (some none) = search steps
  require_valid-Respects (some (some t)) = search steps

  throw_or_return-Respects :
      (e : Option Error) (request : ApprovalRequest) → Respects R (throw_or_return e request)
  throw_or_return-Respects none request = search steps
  throw_or_return-Respects (some e) request = search steps

  expire_each-Respects :
      (at : ℕ) (rows : List RequestRow) (changed : ℕ) → Respects R (expire_each env at rows changed)
  unfolding expire_each
  expire_each-Respects at [] changed = search steps
  expire_each-Respects at (row ∷ rows) changed =
      Respects-bind _ _ (search steps) (λ more. expire_each-Respects at rows _)

  create_row-Respects :
      (input : NormalizedRequest) (key : Option String) (fingerprint hash : String)
      → Respects R (create_row env input key fingerprint hash)
  unfolding create_row
  create_row-Respects input key fingerprint hash = search steps depth 20

ruleset more_steps = (
  steps, expire_row_if_due-Respects, require_future-Respects, require_valid-Respects,
  throw_or_return-Respects, expire_each-Respects, create_row-Respects,
)

module _ (env : Env) {R : Store → Store → Type 0} ⦃o : Preorder R⦄ ⦃given : Steps env R⦄ where
  normalize_create_input-Respects :
      (input : CreateApprovalRequest) → Respects R (normalize_create_input env input)
  unfolding normalize_create_input
  normalize_create_input-Respects input = search more_steps depth 20

  reuse_or_create-Respects :
      (input : NormalizedRequest) (key fingerprint hash : String) (found : Option RequestRow)
      → Respects R (reuse_or_create env input key fingerprint hash found)
  unfolding reuse_or_create
  reuse_or_create-Respects input key fingerprint hash none = search more_steps
  reuse_or_create-Respects input key fingerprint hash (some row) = search more_steps depth 10

  create_or_reuse_body-Respects :
      (input : NormalizedRequest) (key : Option String) (fingerprint hash : String)
      → Respects R (create_or_reuse_body env input key fingerprint hash)
  unfolding create_or_reuse_body
  create_or_reuse_body-Respects input none fingerprint hash = search more_steps
  create_or_reuse_body-Respects input (some key) fingerprint hash =
      search (more_steps, reuse_or_create-Respects)

  pub create_or_reuse-Respects :
      (input : CreateApprovalRequest) (raw : String) → Respects R (create_or_reuse env input raw)
  unfolding create_or_reuse
  create_or_reuse-Respects input raw =
      search (more_steps, normalize_create_input-Respects, create_or_reuse_body-Respects) depth 10

  pub record_dispatch-Respects : (id channel : String) → Respects R (record_dispatch env id channel)
  unfolding record_dispatch
  record_dispatch-Respects id channel = search more_steps

  pub record_dispatch_failure-Respects :
      (id channel reason : String) → Respects R (record_dispatch_failure env id channel reason)
  unfolding record_dispatch_failure
  record_dispatch_failure-Respects id channel reason = search more_steps

  decide_body-Respects :
      (hash principal : String) (decision : ApprovalDecision) (reason : Option String) (at : ℕ)
      → Respects R (decide_body env hash principal decision reason at)
  unfolding decide_body
  decide_body-Respects hash principal decision reason at = search more_steps depth 16

  pub decide-Respects :
      (raw principal : String) (decision : ApprovalDecision) (reason : Option String)
      → Respects R (decide env raw principal decision reason)
  unfolding decide
  decide-Respects raw principal decision reason = search (more_steps, decide_body-Respects) depth 12

  claim_body-Respects : (id actor : String) (at : ℕ) → Respects R (claim_body env id actor at)
  unfolding claim_body
  claim_body-Respects id actor at = search more_steps depth 16

  pub claim_execution-Respects :
      (id principal : String) → Respects R (claim_execution env id principal)
  unfolding claim_execution
  claim_execution-Respects id principal = search (more_steps, claim_body-Respects) depth 10

  cancel_body-Respects :
      (id principal : String) (reason : Option String) (at : ℕ)
      → Respects R (cancel_body env id principal reason at)
  unfolding cancel_body
  cancel_body-Respects id principal reason at = search more_steps depth 16

  pub cancel-Respects :
      (id principal : String) (reason : Option String) → Respects R (cancel env id principal reason)
  unfolding cancel
  cancel-Respects id principal reason = search (more_steps, cancel_body-Respects) depth 10

  expire_body-Respects :
      (id : String) (fail_open : Bool) (at : ℕ) → Respects R (expire_body env id fail_open at)
  unfolding expire_body
  expire_body-Respects id fail_open at =
      search (more_steps, (timeout_ends fail_open).0, (timeout_ends fail_open).1) depth 12

  pub expire-Respects : (id : String) (fail_open : Bool) → Respects R (expire env id fail_open)
  unfolding expire
  expire-Respects id fail_open = search (more_steps, expire_body-Respects) depth 10

  pub expire_due-Respects : Respects R (expire_due env)
  unfolding expire_due
  expire_due-Respects = search more_steps depth 12

  pub get-Respects : (id : String) (expire_first : Bool) → Respects R (get env id expire_first)
  unfolding get
  get-Respects id expire_first = search (more_steps, expire_due-Respects) depth 10

  pub list-Respects : (status : Option ApprovalStatus) → Respects R (list env status)
  unfolding list
  list-Respects status = search (more_steps, expire_due-Respects) depth 10
