-- ===== src/Sentinel/Approval/Model.antt =====
-- The types of packages/sentinel/src/approval/ApprovalStore.ts: its records, its errors, the rows of
-- its three tables, and the state that its methods share. A `Date` is its time in milliseconds, and a
-- `Date` that a caller passes in may be invalid (`none`).
use mcp_suite.Common.{ℕ, String, Bool, true, false, Option, List, []}
use mcp_suite.Effect.{Result, err, Exec}
use mcp_suite.Json.{Json}
use mcp_suite.Sentinel.Request.{ToolCallRequest}

pub data ApprovalStatus : Type 0 where
  pending approved denied expired cancelled : ApprovalStatus

pub data ApprovalDecision : Type 0 where
  approved denied : ApprovalDecision

pub data ApprovalEventType : Type 0 where
  created capability_issued dispatched dispatch_failed : ApprovalEventType
  approved denied expired cancelled execution_claimed : ApprovalEventType

pub data ApprovalTransitionErrorCode : Type 0 where
  invalid_capability capability_used capability_expired : ApprovalTransitionErrorCode
  principal_mismatch request_not_found terminal_state : ApprovalTransitionErrorCode
  invalid_request : ApprovalTransitionErrorCode

-- `constraint` is the error that SQLite raises where a row would break the schema, and
-- `invalid_status` the plain `Error` of `transitionPending`.
pub data Error : Type 0 where
  transition : ApprovalTransitionErrorCode → Error
  constraint invalid_status : Error

pub record CreateApprovalRequest : Type 0 where
  pub requester_principal_id : String
  pub approver_principal_id : String
  pub request : ToolCallRequest
  pub channels : List String
  pub expires_at : Option ℕ
  pub upstream_expires_at : Option (Option ℕ)
  pub idempotency_key : Option String

-- What `normalizeCreateInput` returns: the dates are valid.
pub record NormalizedRequest : Type 0 where
  pub requester_principal_id : String
  pub approver_principal_id : String
  pub request : ToolCallRequest
  pub channels : List String
  pub expires_at : ℕ
  pub upstream_expires_at : Option ℕ
  pub idempotency_key : Option String

pub record ApprovalRequest : Type 0 where
  pub id : String
  pub requester_principal_id : String
  pub approver_principal_id : String
  pub request : ToolCallRequest
  pub channels : List String
  pub status : ApprovalStatus
  pub created_at : ℕ
  pub expires_at : ℕ
  pub upstream_expires_at : Option ℕ
  pub idempotency_key : Option String
  pub decided_at : Option ℕ
  pub decided_by : Option String
  pub reason : Option String
  pub execution_claimed_at : Option ℕ
  pub execution_claimed_by : Option String

pub record ApprovalCreationResult : Type 0 where
  pub request : ApprovalRequest
  pub capability_issued : Bool

pub record DecisionTransactionResult : Type 0 where
  pub request : ApprovalRequest
  pub error : Option Error

pub record RequestRow : Type 0 where
  pub id : String
  pub idempotency_key : Option String
  pub request_fingerprint : Option String
  pub requester_principal_id : String
  pub approver_principal_id : String
  pub tool_name : String
  pub request_json : String
  pub channels_json : String
  pub status : ApprovalStatus
  pub created_at : ℕ
  pub expires_at : ℕ
  pub upstream_expires_at : Option ℕ
  pub decided_at : Option ℕ
  pub decided_by : Option String
  pub reason : Option String
  pub execution_claimed_at : Option ℕ
  pub execution_claimed_by : Option String

pub record CapabilityRow : Type 0 where
  pub capability_hash : String
  pub request_id : String
  pub principal_id : String
  pub created_at : ℕ
  pub expires_at : ℕ
  pub used_at : Option ℕ

pub record EventRow : Type 0 where
  pub id : ℕ
  pub request_id : String
  pub event_type : ApprovalEventType
  pub status : ApprovalStatus
  pub actor_principal_id : Option String
  pub reason : Option String
  pub created_at : ℕ

pub record ApprovalEvent : Type 0 where
  pub id : ℕ
  pub request_id : String
  pub type : ApprovalEventType
  pub status : ApprovalStatus
  pub actor_principal_id : Option String
  pub reason : Option String
  pub created_at : ℕ

-- The three tables, oldest row first, and the counter of the AUTOINCREMENT column.
pub record Database : Type 0 where
  pub requests : List RequestRow
  pub capabilities : List CapabilityRow
  pub events : List EventRow
  pub next_event_id : ℕ

abbrev pub empty_database : Database
empty_database = record { requests = []; capabilities = []; events = []; next_event_id = 1 }

-- The database, and how often the clock and `randomUUID` were called.
pub record Store : Type 0 where
  pub database : Database
  pub open database use *
  pub clock_reads : ℕ
  pub uuids_drawn : ℕ

-- What the platform provides: the n-th value of `now` and of `randomUUID`, SHA-256 in hexadecimal,
-- JSON, `Date.toISOString`, and the order of `localeCompare`. `parse_request` is `JSON.parse` of the
-- text of a request; either parser gives `none` where `JSON.parse` throws.
pub record Platform : Type 0 where
  pub clock : ℕ → ℕ
  pub uuid : ℕ → String
  pub sha256 : String → String
  pub stringify : Json → String
  pub parse : String → Option Json
  pub parse_request : String → Option ToolCallRequest
  pub to_iso_string : ℕ → String
  pub locale_le : String → String → Bool

pub record SanitizedRequest : Type 0 where
  pub request : ToolCallRequest
  pub serialized : String

-- The two methods of audit/AuditRedactor.ts that the store calls.
pub record Redactor : Type 0 where
  pub sanitize_request : ToolCallRequest → SanitizedRequest
  pub sanitize_error : String → String

pub record Env : Type 0 where
  pub platform : Platform
  pub open platform use *
  pub redactor : Redactor
  pub open redactor use *

abbrev pub Action : Type 0 → Type 0
Action A = Exec Store Error A

abbrev pub refuse {ℓ} : {A : Type ℓ} → ApprovalTransitionErrorCode → Result Error A
refuse code = err (transition code)

-- `status === "pending"`, membership in `TERMINAL_STATUSES`, and `status === "approved"`.
abbrev pub is_pending : ApprovalStatus → Bool
is_pending ApprovalStatus.pending = true
is_pending _ = false

abbrev pub is_terminal : ApprovalStatus → Bool
is_terminal ApprovalStatus.pending = false
is_terminal _ = true

abbrev pub is_approved : ApprovalStatus → Bool
is_approved ApprovalStatus.approved = true
is_approved _ = false

-- The status and the event that a decision is stored as: the texts are the same.
abbrev pub decided_status : ApprovalDecision → ApprovalStatus
decided_status ApprovalDecision.approved = ApprovalStatus.approved
decided_status ApprovalDecision.denied = ApprovalStatus.denied

abbrev pub decided_event : ApprovalDecision → ApprovalEventType
decided_event ApprovalDecision.approved = ApprovalEventType.approved
decided_event ApprovalDecision.denied = ApprovalEventType.denied
