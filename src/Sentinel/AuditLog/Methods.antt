-- ===== src/Sentinel/AuditLog/Methods.antt =====
-- The methods of `AuditLog` of packages/sentinel/src/audit/AuditLog.ts on the table.
use Prim.Native.String.{◌++◌ as ◌<>◌}
use mcp_suite.Common.{
  ℕ, suc, ◌-◌, ◌*◌, String, Bool, false, Option, none, some, List, [], ◌∷◌, ◌++◌, leb,
  if◌then◌else◌, or_else, keep_if, truthy, any, ◌==◌, length,
}
use mcp_suite.Effect.{Result, ok, err, lift, gets, ◌>>=◌, ◌>>◌}
use mcp_suite.Sentinel.Request.{ToolCallRequest}
use mcp_suite.Sentinel.Keys.{VirtualKey}
use mcp_suite.Sentinel.Redaction.{AuditRedactor, SanitizedAuditRequest}
use mcp_suite.Sentinel.Redaction.Methods.{sanitize_request, sanitize_error}
use mcp_suite.Sentinel.AuditLog.{
  AuditEntry, AuditFilter, AuditRow, AuditStore, AuditError, AuditPlatform, Audit,
  current_redaction_version, day_ms, coerce_legacy_request, is_legacy, oldest_first, latest_first,
  update_rows, remediated_row, as_audit_error, matches_filter, constraint,
}

module _ (platform : AuditPlatform) (redactor : AuditRedactor) (retention_days : ℕ) where
  unfoldable pub now : Audit ℕ
  now s = (ok (platform.clock s.clock_reads), record s { clock_reads = suc s.clock_reads })

  abbrev pub is_kept : ℕ → AuditRow → Bool
  is_kept at row = leb (at - retention_days * day_ms) row.created_at

  abbrev delete_before : ℕ → AuditStore → Result AuditError ℕ × AuditStore
  delete_before at s =
      let kept = keep_if (is_kept at) s.rows in
      (ok (length s.rows - length kept), record s { rows = kept })

  unfoldable pub prune_expired : Audit ℕ
  prune_expired = now >>= delete_before

  abbrev pub sanitize : ToolCallRequest → Result AuditError SanitizedAuditRequest
  sanitize request = as_audit_error (sanitize_request platform.redaction_platform redactor request)

  abbrev pub sanitize_text_of : Option String → Option String
  sanitize_text_of error = sanitize_error platform.redaction_platform redactor error

  abbrev pub read_request : String → String → ToolCallRequest
  read_request request_json tool =
      coerce_legacy_request platform.number_text (platform.parse_json request_json) tool

  -- The body of the transaction of `remediateLegacyRows`.
  unfoldable pub remediate_each : List AuditRow → List AuditRow → Result AuditError (List AuditRow)
  remediate_each [] rows = ok rows
  remediate_each (row ∷ legacy) rows =
      elim (sanitize (read_request row.request_json row.tool_name)) [
        | err e ↦ err e
        | ok sanitized ↦
            remediate_each legacy
              (update_rows row.id (remediated_row sanitized (sanitize_text_of row.error)) rows)
      ]

  -- A throw takes back what the transaction wrote.
  abbrev commit : Result AuditError (List AuditRow) → Audit Unit
  commit (ok rows) s = (ok tt, record s { rows = rows })
  commit (err e) s = (err e, s)

  unfoldable pub remediate_legacy_rows : Audit Unit
  remediate_legacy_rows s =
      commit (remediate_each (oldest_first (keep_if is_legacy s.rows)) s.rows) s

  unfoldable pub prepare_for_read : Audit Unit
  prepare_for_read = do prune_expired; remediate_legacy_rows

  abbrev audit_row_of : AuditEntry → String → ℕ → SanitizedAuditRequest → AuditRow
  audit_row_of entry id at sanitized = record {
    id = id;
    key_id = entry.key.id;
    tool_name = sanitized.request.tool;
    decision = entry.decision;
    is_error = or_else entry.is_error false;
    error = sanitize_text_of entry.error;
    duration_ms = entry.duration_ms;
    request_json = sanitized.serialized;
    created_at = or_else entry.created_at at;
    redaction_version = current_redaction_version;
  }

  unfoldable pub draw_id : String → ℕ → Audit String
  draw_id key_id at s = (
    ok (key_id <> "_" <> platform.decimal at <> "_" <> platform.random_uuid s.ids_drawn),
    record s { ids_drawn = suc s.ids_drawn },
  )

  unfoldable pub insert_row : AuditRow → Audit Unit
  insert_row row s =
      if any (λ r. r.id == row.id) s.rows
      then (err constraint, s)
      else (ok tt, record s { rows = s.rows ++ row ∷ [] })

  unfoldable pub record_entry : AuditEntry → Audit Unit
  record_entry entry = do
    prune_expired
    at ← now
    id ← draw_id entry.key.id at
    sanitized ← lift (sanitize entry.request)
    insert_row (audit_row_of entry id at sanitized)

  abbrev key_of : AuditRow → VirtualKey
  key_of row = record {
    id = row.key_id;
    name = row.key_id;
    tags = [];
    created_at = row.created_at;
    expires_at = none;
    rate_limit = none;
    allowed_tools = none;
    raw_key = none;
    is_revoked = false;
  }

  abbrev entry_of : AuditRow → SanitizedAuditRequest → AuditEntry
  entry_of row sanitized = record {
    key = key_of row;
    request = sanitized.request;
    decision = row.decision;
    is_error = some row.is_error;
    error = truthy (sanitize_text_of row.error);
    duration_ms = row.duration_ms;
    created_at = some row.created_at;
  }

  unfoldable pub to_audit_entry : AuditRow → Result AuditError AuditEntry
  to_audit_entry row = elim (sanitize (read_request row.request_json row.tool_name)) [
    | err e ↦ err e
    | ok sanitized ↦ ok (entry_of row sanitized)
  ]

  unfoldable pub to_audit_entries : List AuditRow → Result AuditError (List AuditEntry)
  to_audit_entries [] = ok []
  to_audit_entries (row ∷ rows) = elim (to_audit_entry row) [
    | err e ↦ err e
    | ok entry ↦ elim (to_audit_entries rows) [ err e ↦ err e | ok entries ↦ ok (entry ∷ entries) ]
  ]

  unfoldable pub query : AuditFilter → Audit (List AuditEntry)
  query filters = do
    prepare_for_read
    rows ← gets (λ s. latest_first (keep_if (matches_filter filters) s.rows))
    lift (to_audit_entries rows)
