-- ===== src/Sentinel/AuditLog.antt =====
-- `AuditLog` of packages/sentinel/src/audit/AuditLog.ts. A time is in milliseconds; the ISO texts of years with
-- four digits have the order of the times.
pub mod Methods
pub mod Rows
pub mod Remediation
pub mod Csv
mod Examples
use Prim.Native.String.{◌++◌ as ◌<>◌}
use mcp_suite.Common.{
  ℕ, suc, ◌+◌, ◌-◌, ◌*◌, String, Bool, true, false, not, ◌&&◌, ◌||◌, Option, none, some, List, [],
  ◌∷◌, ◌++◌, map, leb, ltb, if◌then◌else◌, or_else, keep_if, is_empty, truthy, any, ◌==◌, length,
}
use mcp_suite.Effect.{Result, ok, err, Exec, raise, pure, lift, gets, modify, ◌>>=◌, ◌>>◌}
use mcp_suite.Json.{Json, Fields, null, bool, num, str, arr, obj, end, field}
use mcp_suite.Sentinel.Request.{ToolCallRequest}
use mcp_suite.Sentinel.Keys.{VirtualKey}
use mcp_suite.Sentinel.Redaction.{
  AuditRedactor, RedactionPlatform, RedactionError, SanitizedAuditRequest,
}
use mcp_suite.Sentinel.Redaction.Methods.{sanitize_request, sanitize_error}
use mcp_suite.Shared.JsonRpc.{get_field}

pub data AuditDecision : Type 0 where
  allow deny : AuditDecision

pub record AuditEntry : Type 0 where
  pub key : VirtualKey
  pub request : ToolCallRequest
  pub decision : AuditDecision
  pub is_error : Option Bool
  pub error : Option String
  pub duration_ms : Option ℕ
  pub created_at : Option ℕ

pub record AuditFilter : Type 0 where
  pub decision : Option AuditDecision
  pub key_id : Option String

-- A row of the table audit_log.
pub record AuditRow : Type 0 where
  pub id : String
  pub key_id : String
  pub tool_name : String
  pub decision : AuditDecision
  pub is_error : Bool
  pub error : Option String
  pub duration_ms : Option ℕ
  pub request_json : String
  pub created_at : ℕ
  pub redaction_version : ℕ

pub record AuditStore : Type 0 where
  pub rows : List AuditRow
  pub clock_reads : ℕ
  pub ids_drawn : ℕ

pub data AuditError : Type 0 where
  redaction : RedactionError → AuditError
  constraint : AuditError

-- `parse_json` is `none` where `JSON.parse` throws; `number_text` is `String(number)` of a literal.
pub record AuditPlatform : Type 0 where
  pub redaction_platform : RedactionPlatform
  pub clock : ℕ → ℕ
  pub random_uuid : ℕ → String
  pub parse_json : String → Option Json
  pub number_text : String → String
  pub decimal : ℕ → String
  pub iso_text : ℕ → String

abbrev pub Audit : Type 0 → Type 0
Audit A = Exec AuditStore AuditError A

abbrev pub current_redaction_version : ℕ
current_redaction_version = 1

abbrev pub day_ms : ℕ
day_ms = 24 * 60 * 60 * 1000

abbrev pub header_text : (String → String) → Json → String
header_text number_text (str s) = s
header_text number_text null = "null"
header_text number_text (num n) = number_text n
header_text number_text (bool true) = "true"
header_text number_text (bool false) = "false"
header_text number_text (arr items) = "[INVALID_HEADER]"
header_text number_text (obj fields) = "[INVALID_HEADER]"

abbrev pub header_entries : (String → String) → Fields → List (String × String)
header_entries number_text end = []
header_entries number_text (field name value rest) =
    (name, header_text number_text value) ∷ header_entries number_text rest

abbrev pub coerce_headers : (String → String) → Option Json → List (String × String)
coerce_headers number_text (some (obj fields)) = header_entries number_text fields
coerce_headers number_text _ = []

abbrev pub text_or : String → Option Json → String
text_or fallback (some (str s)) = s
text_or fallback _ = fallback

abbrev pub audit_note : String → Fields
audit_note note = field "_audit" (str note) end

abbrev pub input_or_note : Option Json → Fields
input_or_note (some (obj fields)) = fields
input_or_note _ = audit_note "[REMEDIATED_INVALID_INPUT]"

-- What is no object, or no JSON at all.
abbrev pub unreadable_request : String → ToolCallRequest
unreadable_request fallback = record {
  tool = fallback;
  headers = [];
  input = audit_note "[REMEDIATED_INVALID_JSON]";
}

unfoldable pub coerce_legacy_request : (String → String) → Option Json → String → ToolCallRequest
coerce_legacy_request number_text (some (obj fields)) fallback = record {
  tool = text_or fallback (get_field "tool" fields);
  headers = coerce_headers number_text (get_field "headers" fields);
  input = input_or_note (get_field "input" fields);
}
coerce_legacy_request number_text _ fallback = unreadable_request fallback

-- SELECT … WHERE redaction_version < 1 ORDER BY created_at ASC
abbrev pub is_legacy : AuditRow → Bool
is_legacy row = ltb row.redaction_version current_redaction_version

abbrev pub insert_oldest : AuditRow → List AuditRow → List AuditRow
insert_oldest row [] = row ∷ []
insert_oldest row (r ∷ rows) =
    let rest = insert_oldest row rows in
    if leb row.created_at r.created_at then row ∷ r ∷ rows else r ∷ rest

abbrev pub oldest_first : List AuditRow → List AuditRow
oldest_first [] = []
oldest_first (row ∷ rows) = insert_oldest row (oldest_first rows)

-- ORDER BY created_at DESC
abbrev pub insert_latest : AuditRow → List AuditRow → List AuditRow
insert_latest row [] = row ∷ []
insert_latest row (r ∷ rows) =
    let rest = insert_latest row rows in
    if leb r.created_at row.created_at then row ∷ r ∷ rows else r ∷ rest

abbrev pub latest_first : List AuditRow → List AuditRow
latest_first [] = []
latest_first (row ∷ rows) = insert_latest row (latest_first rows)

-- UPDATE … WHERE id = ?
abbrev pub update_rows : String → (AuditRow → AuditRow) → List AuditRow → List AuditRow
update_rows id change rows = map (λ row. if row.id == id then change row else row) rows

abbrev pub remediated_row : SanitizedAuditRequest → Option String → AuditRow → AuditRow
remediated_row sanitized error row = record row {
  tool_name = sanitized.request.tool;
  request_json = sanitized.serialized;
  error = error;
  redaction_version = current_redaction_version;
}

abbrev pub as_audit_error {ℓ} : {A : Type ℓ} → Result RedactionError A → Result AuditError A
as_audit_error (ok a) = ok a
as_audit_error (err e) = err (redaction e)

abbrev same_decision : AuditDecision → AuditDecision → Bool
same_decision allow allow = true
same_decision deny deny = true
same_decision _ _ = false

abbrev pub matches_filter : AuditFilter → AuditRow → Bool
matches_filter filters row =
    (elim filters.decision [ none ↦ true | some d ↦ same_decision row.decision d ])
    && (elim (truthy filters.key_id) [ none ↦ true | some k ↦ row.key_id == k ])
