-- ===== src/Sentinel/AuditLog/Remediation.antt =====
-- What `prepareForRead` of packages/sentinel/src/audit/AuditLog.ts leaves for a read.
use mcp_suite.Common.{
  ◌⊎◌, ◌≤◌, ◌+◌, ◌*◌, ℕ, String, ◌≡◌, refl, subst, arith, true, false, Option, List, [], ◌∷◌,
  keep_if, All, ◌==◌, eq_iff, Bool-cases, inl, inr,
}
use mcp_suite.Effect.{ok, Result-cases, ◌>>=◌}
use mcp_suite.Sentinel.Redaction.{AuditRedactor, SanitizedAuditRequest}
use mcp_suite.Sentinel.AuditLog.{
  AuditPlatform, AuditRow, AuditStore, is_legacy, oldest_first, update_rows, remediated_row,
}
use mcp_suite.Sentinel.AuditLog.Methods.{
  sanitize, sanitize_text_of, read_request, remediate_each, remediate_legacy_rows, prepare_for_read,
  prune_expired, now, is_kept,
}
use mcp_suite.Sentinel.AuditLog.Rows.{
  Covered, All-kept, sorted_covers, update-Covered, uncovered, Each, Each-same, All-Each, IsIn,
  All-keep_if, All-oldest_first, All-IsIn,
}

module _ (platform : AuditPlatform) (redactor : AuditRedactor) (retention_days : ℕ) where
  remediate_each-All :
      (legacy rows out : List AuditRow)
      → All (Covered legacy) rows
      → remediate_each platform redactor retention_days legacy rows ≡ ok out
      → All (λ row. is_legacy row ≡ false) out
  unfolding remediate_each
  remediate_each-All [] rows out h done =
      subst (All (λ row. is_legacy row ≡ false)) {x = rows} (ground arith) (uncovered rows h)
  remediate_each-All (row ∷ legacy) rows out h done =
      elim (Result-cases (
        sanitize platform redactor retention_days
          (read_request platform redactor retention_days row.request_json row.tool_name))) [
            | inr (e, failed) ↦ absurd (ground (arith, failed, done))
            | inl (sanitized, works) ↦
                let error : Option String =
                  sanitize_text_of platform redactor retention_days row.error in
                remediate_each-All legacy (update_rows row.id (remediated_row sanitized error) rows)
                  out (update-Covered row legacy sanitized error rows h)
                  (ground (arith, works, done))
          ]

  -- What a row becomes whose id a row of an older version has: the tool, the request and the error are what
  -- the redactor makes of that row's, and all else stays.
  pub record Remediated (log : List AuditRow) (r r' : AuditRow) : Type 0 where
    pub source : AuditRow
    pub logged : IsIn source log
    pub legacy : is_legacy source ≡ true
    pub same_id : source.id ≡ r.id
    pub sanitized : SanitizedAuditRequest
    pub works :
        sanitize platform redactor retention_days
          (read_request platform redactor retention_days source.request_json source.tool_name)
        ≡ ok sanitized
    pub redacted : r' ≡ record r {
      tool_name = sanitized.request.tool;
      request_json = sanitized.serialized;
      error = sanitize_text_of platform redactor retention_days source.error;
      redaction_version = 1;
    }

  abbrev Step : List AuditRow → AuditRow → AuditRow → Type 0
  Step log r r' = (r' ≡ r) ⊎ Remediated log r r'

  updated_row :
      (log : List AuditRow) (row : AuditRow) (sanitized : SanitizedAuditRequest)
      → IsIn row log × (is_legacy row ≡ true)
      → sanitize platform redactor retention_days
          (read_request platform redactor retention_days row.request_json row.tool_name)
        ≡ ok sanitized
      → (r r' : AuditRow) → Step log r r'
      → (r'.id == row.id) ≡ true
      → Remediated log r (
          remediated_row sanitized (sanitize_text_of platform redactor retention_days row.error) r')
  updated_row log row sanitized logged works r r' (inl same) own = record {
    source = row;
    logged = logged.0;
    legacy = logged.1;
    same_id = ground (arith, same, own, eq_iff r'.id row.id);
    sanitized = sanitized;
    works = works;
    redacted = rw same refl;
  }
  updated_row log row sanitized logged works r r' (inr p) own = record {
    source = row;
    logged = logged.0;
    legacy = logged.1;
    same_id = ground (arith, p.redacted, own, eq_iff r'.id row.id);
    sanitized = sanitized;
    works = works;
    redacted = rw p.redacted refl;
  }

  update-Each :
      (log : List AuditRow) (row : AuditRow) (sanitized : SanitizedAuditRequest)
      → IsIn row log × (is_legacy row ≡ true)
      → sanitize platform redactor retention_days
          (read_request platform redactor retention_days row.request_json row.tool_name)
        ≡ ok sanitized
      → (rs ts : List AuditRow) → Each (Step log) rs ts
      → Each (Step log) rs (
          update_rows row.id
            (remediated_row sanitized (sanitize_text_of platform redactor retention_days row.error))
            ts)
  update-Each log row sanitized logged works [] [] h = tt
  update-Each log row sanitized logged works [] (t ∷ ts) h = absurd h
  update-Each log row sanitized logged works (r ∷ rs) [] h = absurd h
  update-Each log row sanitized logged works (r ∷ rs) (t ∷ ts) h =
      elim (Bool-cases (t.id == row.id)) [
        | inl own ↦ (
          rw own (inr (updated_row log row sanitized logged works r t h.0 own)),
          update-Each log row sanitized logged works rs ts h.1,
        )
        | inr apart ↦ (rw apart h.0, update-Each log row sanitized logged works rs ts h.1)
      ]

  remediate_each-Each :
      (log legacy rows out : List AuditRow)
      → All (λ l. IsIn l log × (is_legacy l ≡ true)) legacy
      → Each (Step log) log rows
      → remediate_each platform redactor retention_days legacy rows ≡ ok out
      → Each (Step log) log out
  unfolding remediate_each
  remediate_each-Each log [] rows out listed h done =
      subst (Each (Step log) log) {x = rows} (ground arith) h
  remediate_each-Each log (row ∷ legacy) rows out listed h done =
      elim (Result-cases (
        sanitize platform redactor retention_days
          (read_request platform redactor retention_days row.request_json row.tool_name))) [
            | inr (e, failed) ↦ absurd (ground (arith, failed, done))
            | inl (sanitized, works) ↦
                remediate_each-Each log legacy
                  (update_rows row.id
                    (remediated_row sanitized
                      (sanitize_text_of platform redactor retention_days row.error))
                    rows)
                  out listed.1 (update-Each log row sanitized listed.0 works log rows h)
                  (ground (arith, works, done))
          ]

  -- The log that is left of these rows: none is older than the retention, none is without redaction, and
  -- each is what it was, or what its remediation makes of it.
  pub record Prepared (at : ℕ) (rows out : List AuditRow) : Type 0 where
    pub recent : All (λ row. at ≤ row.created_at + retention_days * 86400000) out
    pub current : All (λ row. is_legacy row ≡ false) out
    pub remediated :
        Each (λ r r'. ((r' ≡ r) × (is_legacy r ≡ false)) ⊎ Remediated rows r r') rows out

  rows_stay_recent :
      (at : ℕ) (log rs ts : List AuditRow)
      → All (λ row. at ≤ row.created_at + retention_days * 86400000) rs
      → Each (Step log) rs ts
      → All (λ row. at ≤ row.created_at + retention_days * 86400000) ts
  rows_stay_recent at log [] [] h e = tt
  rows_stay_recent at log [] (t ∷ ts) h e = absurd e
  rows_stay_recent at log (r ∷ rs) [] h e = absurd e
  rows_stay_recent at log (r ∷ rs) (t ∷ ts) h (inl same, e) =
      (rw same h.0, rows_stay_recent at log rs ts h.1 e)
  rows_stay_recent at log (r ∷ rs) (t ∷ ts) h (inr p, e) =
      (rw p.redacted h.0, rows_stay_recent at log rs ts h.1 e)

  kept_recent :
      (at : ℕ) (rows : List AuditRow)
      → All
          (λ row. at ≤ row.created_at + retention_days * 86400000)
          (keep_if (is_kept platform redactor retention_days at) rows)
  kept_recent at [] = tt
  kept_recent at (row ∷ rows) = ground (arith, kept_recent at rows)

  fresh_unless_changed :
      (log : List AuditRow) (r r' : AuditRow)
      → Step log r r'
      → is_legacy r' ≡ false
      → ((r' ≡ r) × (is_legacy r ≡ false)) ⊎ Remediated log r r'
  fresh_unless_changed log r r' (inl same) fresh =
      inl (same, subst (λ t. is_legacy t ≡ false) same fresh)
  fresh_unless_changed log r r' (inr p) fresh = inr p

  remediation-Prepared :
      (at : ℕ) (s : AuditStore)
      → All (λ row. at ≤ row.created_at + retention_days * 86400000) s.rows
      → (remediate_legacy_rows platform redactor retention_days s).0 ≡ ok tt
      → Prepared at s.rows (remediate_legacy_rows platform redactor retention_days s).1.rows
  unfolding remediate_legacy_rows
  remediation-Prepared at s recent done =
      let legacy : List AuditRow = oldest_first (keep_if is_legacy s.rows) in
      elim (Result-cases (remediate_each platform redactor retention_days legacy s.rows)) [
        | inr (e, failed) ↦ absurd (ground (arith, failed, done))
        | inl (rows, works) ↦
            let listed : All (λ l. IsIn l s.rows × (is_legacy l ≡ true)) legacy =
              All-oldest_first (λ l. IsIn l s.rows × (is_legacy l ≡ true))
                (keep_if is_legacy s.rows)
                (All-keep_if (λ l. IsIn l s.rows) is_legacy s.rows (All-IsIn s.rows)) in
            let each : Each (Step s.rows) s.rows rows =
              remediate_each-Each s.rows legacy s.rows rows listed
                (Each-same (Step s.rows) (λ r. inl refl) s.rows) works in
            let current : All (λ row. is_legacy row ≡ false) rows =
              remediate_each-All legacy s.rows rows
                (sorted_covers (keep_if is_legacy s.rows) s.rows (All-kept s.rows)) works in
            rw works (record {
              recent = rows_stay_recent at s.rows s.rows rows recent each;
              current = current;
              remediated =
                  All-Each (Step s.rows)
                    (λ r r'. ((r' ≡ r) × (is_legacy r ≡ false)) ⊎ Remediated s.rows r r')
                    (λ row. is_legacy row ≡ false)
                    (λ r r' step fresh. fresh_unless_changed s.rows r r' step fresh) s.rows rows
                    each current;
            })
      ]

  -- After the work before a read returned: the log is what is left after the rows older than the retention
  -- were deleted; each row of the current version is as it was, and in each other one the tool, the request
  -- and the error are what the redactor makes of those of the row with its id.
  pub prepare_for_read-Prepared :
      (s : AuditStore)
      → (prepare_for_read platform redactor retention_days s).0 ≡ ok tt
      → Prepared
          (platform.clock s.clock_reads)
          (keep_if (is_kept platform redactor retention_days (platform.clock s.clock_reads)) s.rows)
          (prepare_for_read platform redactor retention_days s).1.rows
  unfolding prepare_for_read prune_expired now ◌>>=◌
  prepare_for_read-Prepared s done =
      remediation-Prepared (platform.clock s.clock_reads) _
        (kept_recent (platform.clock s.clock_reads) s.rows) done
