-- ===== src/Sentinel/AuditLog/Rows.antt =====
-- Lists of rows of the log of packages/sentinel/src/audit/AuditLog.ts: which rows an UPDATE still has to reach,
-- and how the rows before and after belong together.
use mcp_suite.Common.{
  ◌⊎◌, leb, String, ◌≡◌, refl, ◌∙◌, ap, arith, Bool, true, false, not, ◌||◌, Option, List, [], ◌∷◌,
  any, keep_if, All, ◌==◌, eq_iff, Bool-cases, inl, inr,
}
use mcp_suite.Sentinel.Redaction.{SanitizedAuditRequest}
use mcp_suite.Sentinel.AuditLog.{
  AuditRow, is_legacy, insert_oldest, oldest_first, update_rows, remediated_row,
}

-- The row is redacted, or one of these rows has its id.
abbrev pub Covered : List AuditRow → AuditRow → Type 0
Covered legacy row = not (is_legacy row) || any (λ l. l.id == row.id) legacy ≡ true

pub any-insert :
    (test : AuditRow → Bool) (row : AuditRow) (rows : List AuditRow)
    → any test (insert_oldest row rows) ≡ test row || any test rows
any-insert test row [] = ground arith
any-insert test row (r ∷ rows) = ground (arith, any-insert test row rows)

pub any-oldest_first :
    (test : AuditRow → Bool) (rows : List AuditRow) → any test (oldest_first rows) ≡ any test rows
any-oldest_first test [] = refl
any-oldest_first test (row ∷ rows) =
    any-insert test row (oldest_first rows) ∙ ap (λ b. test row || b) (any-oldest_first test rows)

pub kept_covers :
    (all rows : List AuditRow)
    → All (Covered (keep_if is_legacy all)) rows
    → (row : AuditRow) → All (Covered (keep_if is_legacy (row ∷ all))) rows
kept_covers all [] h row = tt
kept_covers all (r ∷ rows) h row = elim (Bool-cases (is_legacy row)) [
  | inl legacy ↦ (rw legacy (ground (arith, h.0)), kept_covers all rows h.1 row)
  | inr redacted ↦ (rw redacted h.0, kept_covers all rows h.1 row)
]

pub All-kept : (rows : List AuditRow) → All (Covered (keep_if is_legacy rows)) rows
All-kept [] = tt
All-kept (row ∷ rows) = elim (Bool-cases (is_legacy row)) [
  | inl legacy ↦ (
    rw legacy (ground (arith, (eq_iff row.id row.id).1 refl)),
    kept_covers rows rows (All-kept rows) row,
  )
  | inr redacted ↦ (rw redacted refl, kept_covers rows rows (All-kept rows) row)
]

pub sorted_covers :
    (legacy rows : List AuditRow)
    → All (Covered legacy) rows
    → All (Covered (oldest_first legacy)) rows
sorted_covers legacy [] h = tt
sorted_covers legacy (r ∷ rows) h = (
  ap (λ b. not (is_legacy r) || b) (any-oldest_first (λ l. l.id == r.id) legacy) ∙ h.0,
  sorted_covers legacy rows h.1,
)

pub update-Covered :
    (row : AuditRow) (legacy : List AuditRow) (sanitized : SanitizedAuditRequest)
    (error : Option String) (rows : List AuditRow)
    → All (Covered (row ∷ legacy)) rows
    → All (Covered legacy) (update_rows row.id (remediated_row sanitized error) rows)
update-Covered row legacy sanitized error [] h = tt
update-Covered row legacy sanitized error (r ∷ rows) h = elim (Bool-cases (r.id == row.id)) [
  | inl same ↦ (rw same refl, update-Covered row legacy sanitized error rows h.1)
  | inr other ↦ (
    rw other (ground (arith, h.0, other, eq_iff r.id row.id, eq_iff row.id r.id)),
    update-Covered row legacy sanitized error rows h.1,
  )
]

pub uncovered :
    (rows : List AuditRow) → All (Covered []) rows → All (λ row. is_legacy row ≡ false) rows
uncovered [] h = tt
uncovered (row ∷ rows) h = (ground (arith, h.0), uncovered rows h.1)

-- Two lists of one length, whose members are related one by one.
abbrev pub Each : (AuditRow → AuditRow → Type 0) → List AuditRow → List AuditRow → Type 0
Each R [] [] = Unit
Each R (r ∷ rs) (t ∷ ts) = R r t × Each R rs ts
Each R _ _ = ⊥

pub Each-same :
    (R : AuditRow → AuditRow → Type 0)
    → ((r : AuditRow) → R r r)
    → (rs : List AuditRow) → Each R rs rs
Each-same R same [] = tt
Each-same R same (r ∷ rs) = (same r, Each-same R same rs)

pub All-Each :
    (R Q : AuditRow → AuditRow → Type 0) (T : AuditRow → Type 0)
    → ((r t : AuditRow) → R r t → T t → Q r t)
    → (rs ts : List AuditRow) → Each R rs ts
    → All T ts
    → Each Q rs ts
All-Each R Q T step [] [] h a = tt
All-Each R Q T step [] (t ∷ ts) h a = absurd h
All-Each R Q T step (r ∷ rs) [] h a = absurd h
All-Each R Q T step (r ∷ rs) (t ∷ ts) h a = (step r t h.0 a.0, All-Each R Q T step rs ts h.1 a.1)

abbrev pub IsIn : AuditRow → List AuditRow → Type 0
IsIn row [] = ⊥
IsIn row (r ∷ rows) = (row ≡ r) ⊎ IsIn row rows

module _ (P : AuditRow → Type 0) where
  pub All-keep_if :
      (test : AuditRow → Bool) (rows : List AuditRow)
      → All P rows
      → All (λ r. P r × (test r ≡ true)) (keep_if test rows)
  All-keep_if test [] h = tt
  All-keep_if test (row ∷ rows) h = elim (Bool-cases (test row)) [
    | inl passes ↦ rw passes ((h.0, passes), All-keep_if test rows h.1)
    | inr fails ↦ rw fails (All-keep_if test rows h.1)
  ]

  pub All-insert_oldest :
      (row : AuditRow) (rows : List AuditRow) → P row → All P rows → All P (insert_oldest row rows)
  All-insert_oldest row [] p h = (p, tt)
  All-insert_oldest row (r ∷ rows) p h = elim (Bool-cases (leb row.created_at r.created_at)) [
    | inl older ↦ rw older (p, h)
    | inr newer ↦ rw newer (h.0, All-insert_oldest row rows p h.1)
  ]

  pub All-oldest_first : (rows : List AuditRow) → All P rows → All P (oldest_first rows)
  All-oldest_first [] h = tt
  All-oldest_first (row ∷ rows) h =
      All-insert_oldest row (oldest_first rows) h.0 (All-oldest_first rows h.1)

  pub All-imp :
      (Q : AuditRow → Type 0) (rows : List AuditRow)
      → ((r : AuditRow) → P r → Q r)
      → All P rows
      → All Q rows
  All-imp Q [] step h = tt
  All-imp Q (row ∷ rows) step h = (step row h.0, All-imp Q rows step h.1)

pub All-IsIn : (rows : List AuditRow) → All (λ r. IsIn r rows) rows
All-IsIn [] = tt
All-IsIn (row ∷ rows) = (
  inl refl,
  All-imp (λ r. IsIn r rows) (λ r. IsIn r (row ∷ rows)) rows (λ r m. inr m) (All-IsIn rows),
)
