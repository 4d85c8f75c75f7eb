-- ===== src/Sentinel/AuditLog/Csv.antt =====
-- The CSV export of packages/sentinel/src/audit/AuditLog.ts.
use Prim.Native.Char.{code}
use Prim.Native.String.{◌++◌ as ◌<>◌}
use mcp_suite.Common.{
  ℕ, String, Bool, false, ◌||◌, ◌&&◌, Option, none, some, List, [], ◌∷◌, map, leb, any,
  if◌then◌else◌, or_else, ◌≡◌, refl, inl, inr, Bool-cases,
}
use mcp_suite.Effect.{pure, ◌>>=◌}
use mcp_suite.Sentinel.Redaction.{AuditRedactor}
use mcp_suite.Sentinel.AuditLog.{
  AuditPlatform, AuditEntry, AuditFilter, Audit, AuditDecision, allow, deny,
}
use mcp_suite.Sentinel.AuditLog.Methods.{query}

abbrev is_one_of : List ℕ → ℕ → Bool
is_one_of codes c = any (λ n. leb n c && leb c n) codes

-- /^[=+\-@]/
abbrev pub starts_formula : String → Bool
starts_formula String.[] = false
starts_formula (String.◌∷◌ c s) = is_one_of (61 ∷ 43 ∷ 45 ∷ 64 ∷ []) (code c)

-- /[",\r\n]/
abbrev pub needs_quotes : String → Bool
needs_quotes String.[] = false
needs_quotes (String.◌∷◌ c s) = is_one_of (34 ∷ 44 ∷ 13 ∷ 10 ∷ []) (code c) || needs_quotes s

-- `text.replaceAll('"', '""')`
abbrev pub double_quotes : String → String
double_quotes String.[] = ""
double_quotes (String.◌∷◌ c s) =
    let rest = double_quotes s in
    if is_one_of (34 ∷ []) (code c) then String.◌∷◌ c (String.◌∷◌ c rest) else String.◌∷◌ c rest

abbrev pub guarded : String → String
guarded text = if starts_formula text then String.◌∷◌ "'" text else text

unfoldable pub csv_cell : String → String
csv_cell text =
    if needs_quotes (guarded text)
    then String.◌∷◌ "\"" (double_quotes (guarded text) <> "\"")
    else guarded text

abbrev pub joined_with : String → List String → String
joined_with separator [] = ""
joined_with separator (text ∷ []) = text
joined_with separator (text ∷ rest) = text <> separator <> joined_with separator rest

abbrev decision_text : AuditDecision → String
decision_text allow = "allow"
decision_text deny = "deny"

abbrev optional_text : (ℕ → String) → Option ℕ → String
optional_text print none = ""
optional_text print (some n) = print n

module _ (platform : AuditPlatform) where
  abbrev pub csv_row : AuditEntry → String
  csv_row entry = joined_with "," (
      map csv_cell (
        entry.key.id
        ∷ entry.request.tool
        ∷ decision_text entry.decision
        ∷ (if or_else entry.is_error false then "true" else "false")
        ∷ or_else entry.error ""
        ∷ optional_text platform.decimal entry.duration_ms
        ∷ optional_text platform.iso_text entry.created_at
        ∷ []))

  abbrev pub csv_text : List AuditEntry → String
  csv_text entries =
      joined_with "\n"
        ("keyId,tool,decision,isError,error,durationMs,createdAt" ∷ map csv_row entries)

  -- `export("csv", filters)`
  unfoldable pub export_csv : AuditRedactor → ℕ → AuditFilter → Audit String
  export_csv redactor retention_days filters = do
    entries ← query platform redactor retention_days filters
    pure (csv_text entries)

-- No cell of the export starts a formula.
pub csv_cell_inert : (text : String) → starts_formula (csv_cell text) ≡ false
unfolding csv_cell
csv_cell_inert text = elim (Bool-cases (needs_quotes (guarded text))) [
  | inl quoted ↦ rw quoted refl
  | inr plain ↦ elim (Bool-cases (starts_formula text)) [
    | inl formula ↦ rw (csv_cell, plain, formula) refl
    | inr harmless ↦ rw (csv_cell, plain, harmless) harmless
  ]
]
