-- ===== src/Sentinel/AuditLog/Examples.antt =====
-- A log with a row from before the redaction, on which the theorems about
-- packages/sentinel/src/audit/AuditLog.ts are applied.
use mcp_suite.Common.{ℕ, String, ◌≡◌, refl, false, none, [], ◌∷◌, keep_if, length}
use mcp_suite.Effect.{ok, ◌>>=◌}
use mcp_suite.Sentinel.Redaction.Examples
use mcp_suite.Sentinel.AuditLog.{AuditPlatform, AuditRow, AuditStore, allow}
use mcp_suite.Sentinel.AuditLog.Methods.{
  is_kept, prepare_for_read, prune_expired, now, remediate_legacy_rows, remediate_each,
}
use mcp_suite.Sentinel.AuditLog.Csv.{csv_cell}
use mcp_suite.Sentinel.AuditLog.Remediation.{Prepared, prepare_for_read-Prepared}

abbrev platform : AuditPlatform
platform = record {
  redaction_platform = Examples.platform;
  clock = λ n. 100000000;
  random_uuid = λ n. "id";
  parse_json = λ s. none;
  number_text = λ s. s;
  decimal = λ n. "0";
  iso_text = λ n. "";
}

abbrev row : String → ℕ → ℕ → AuditRow
row id created_at version = record {
  id = id;
  key_id = "key";
  tool_name = "echo";
  decision = allow;
  is_error = false;
  error = none;
  duration_ms = none;
  request_json = "password=a";
  created_at = created_at;
  redaction_version = version;
}

-- The first row is older than a day, the second one is not redacted.
abbrev store : AuditStore
store = record {
  rows = row "a" 1000 0 ∷ row "b" 99999999 0 ∷ row "c" 99999999 1 ∷ [];
  clock_reads = 0;
  ids_drawn = 0;
}

reads : (prepare_for_read platform Examples.redactor 1 store).0 ≡ ok tt
unfolding prepare_for_read ◌>>=◌ prune_expired now remediate_legacy_rows remediate_each
    mcp_suite.Sentinel.Redaction.Methods.sanitize_request
    mcp_suite.Sentinel.Redaction.Methods.limit_size
reads = refl

keeps_two : length (prepare_for_read platform Examples.redactor 1 store).1.rows ≡ 2
unfolding prepare_for_read ◌>>=◌ prune_expired now remediate_legacy_rows remediate_each
    mcp_suite.Sentinel.Redaction.Methods.sanitize_request
    mcp_suite.Sentinel.Redaction.Methods.limit_size
keeps_two = refl

quotes : csv_cell "=a,b" ≡ "\"'=a,b\""
unfolding csv_cell
quotes = refl

prepare_for_read-Prepared_example :
    Prepared platform Examples.redactor 1 100000000
      (keep_if (is_kept platform Examples.redactor 1 100000000) store.rows)
      (prepare_for_read platform Examples.redactor 1 store).1.rows
prepare_for_read-Prepared_example =
    prepare_for_read-Prepared platform Examples.redactor 1 store reads
