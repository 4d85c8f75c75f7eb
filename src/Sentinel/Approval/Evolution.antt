-- ===== src/Sentinel/Approval/Evolution.antt =====
-- How the tables of packages/sentinel/src/approval/ApprovalStore.ts may change: the relation between
-- the database before and after any of the methods.
pub mod Statements
use mcp_suite.Common.{
  ℕ, ◌+◌, String, ◌≡◌, refl, ap, subst, ◌∙◌, ◌⊎◌, inl, inr, Bool, true, false, Option, none, some,
  List, [], ◌∷◌, ◌++◌, arith, ◌==◌, eq_iff, if◌then◌else◌, is_some, Extends, Extends-refl,
  Extends-trans, Bool-cases,
}
use mcp_suite.Effect.{Result, ok, err, Exec, pure, raise, ◌>>=◌}
use mathlib.Core.Bool.{false≢true}
use mcp_suite.Effect.Respects.{Preorder, Respects, respects_rules}
use mcp_suite.Table.{KeysUnique, find, update, find-update, find-append}
use mcp_suite.Sentinel.Approval.Model.{
  ApprovalStatus, ApprovalEventType, ApprovalDecision, Error, ApprovalRequest, RequestRow,
  CapabilityRow, Store, Env, Action, DecisionTransactionResult, is_pending,
}
use mcp_suite.Sentinel.Approval.Input.{now}
use mcp_suite.Sentinel.Approval.Sql.{
  transaction, settle, find_request, find_capability, insert_request, update_pending,
  insert_capability, insert_event, still_pending, with_outcome,
}
use mcp_suite.Sentinel.Approval.Decide.{mark_used}
use mcp_suite.Sentinel.Approval.Claim.{update_claim, unclaimed, with_claim}

-- The columns that no method writes after the INSERT.
abbrev pub identity : RequestRow → RequestRow
identity r = record r {
  status = ApprovalStatus.pending;
  decided_at = none;
  decided_by = none;
  reason = none;
  execution_claimed_at = none;
  execution_claimed_by = none;
}

abbrev pub outcome : RequestRow → ApprovalStatus × Option ℕ × Option String × Option String
outcome r = (r.status, r.decided_at, r.decided_by, r.reason)

abbrev pub claim : RequestRow → Option ℕ × Option String
claim r = (r.execution_claimed_at, r.execution_claimed_by)

-- A request keeps its identity, a decided one its outcome, and a claimed one its claim.
pub record RowEvolves (r r' : RequestRow) : Type 0 where
  pub same_identity : identity r' ≡ identity r
  pub same_outcome : is_pending r.status ≡ false → outcome r' ≡ outcome r
  pub same_claim : is_some r.execution_claimed_at ≡ true → claim r' ≡ claim r

-- A capability keeps its request, its principal and its expiry, and a used one stays used.
pub record CapabilityEvolves (c c' : CapabilityRow) : Type 0 where
  pub same_request : c'.request_id ≡ c.request_id
  pub same_principal : c'.principal_id ≡ c.principal_id
  pub same_expiry : c'.expires_at ≡ c.expires_at
  pub still_used : is_some c.used_at ≡ true → is_some c'.used_at ≡ true

abbrev pub MayBecome : {A : Type 0} → (A → A → Type 0) → Option A → Option A → Type 0
MayBecome R none after = Unit
MayBecome R (some a) none = ⊥
MayBecome R (some a) (some b) = R a b

pub record Evolves (s t : Store) : Type 0 where
  pub requests :
      (k : String) → MayBecome RowEvolves (find_request k s.requests) (find_request k t.requests)
  pub capabilities :
      (h : String)
      → MayBecome CapabilityEvolves
          (find_capability h s.capabilities)
          (find_capability h t.capabilities)
  pub log : Extends s.events t.events
  pub unique : KeysUnique (λ r. r.id) s.requests → KeysUnique (λ r. r.id) t.requests

pub RowEvolves-refl : (r : RequestRow) → RowEvolves r r
RowEvolves-refl r = record {
  same_identity = refl;
  same_outcome = λ h. refl;
  same_claim = λ h. refl;
}

RowEvolves-trans : (a b c : RequestRow) → RowEvolves a b → RowEvolves b c → RowEvolves a c
RowEvolves-trans a b c p q = record {
  same_identity = q.same_identity ∙ p.same_identity;
  same_outcome =
      λ h. q.same_outcome (ap (λ o. is_pending o.0) (p.same_outcome h) ∙ h) ∙ p.same_outcome h;
  same_claim = λ h. q.same_claim (ap (λ o. is_some o.0) (p.same_claim h) ∙ h) ∙ p.same_claim h;
}

pub CapabilityEvolves-refl : (c : CapabilityRow) → CapabilityEvolves c c
CapabilityEvolves-refl c = record {
  same_request = refl;
  same_principal = refl;
  same_expiry = refl;
  still_used = λ h. h;
}

CapabilityEvolves-trans :
    (a b c : CapabilityRow) → CapabilityEvolves a b → CapabilityEvolves b c → CapabilityEvolves a c
CapabilityEvolves-trans a b c p q = record {
  same_request = q.same_request ∙ p.same_request;
  same_principal = q.same_principal ∙ p.same_principal;
  same_expiry = q.same_expiry ∙ p.same_expiry;
  still_used = λ h. q.still_used (p.still_used h);
}

module _ {A : Type 0} (R : A → A → Type 0) where
  pub MayBecome-refl : ((a : A) → R a a) → (o : Option A) → MayBecome R o o
  MayBecome-refl same none = tt
  MayBecome-refl same (some a) = same a

  MayBecome-trans :
      ((a b c : A) → R a b → R b c → R a c)
      → (o p q : Option A) → MayBecome R o p
      → MayBecome R p q
      → MayBecome R o q
  MayBecome-trans step none p q h k = tt
  MayBecome-trans step (some a) none q h k = absurd h
  MayBecome-trans step (some a) (some b) none h k = absurd k
  MayBecome-trans step (some a) (some b) (some c) h k = step a b c h k

pub Evolves-refl : (s : Store) → Evolves s s
Evolves-refl s = record {
  requests = λ k. MayBecome-refl RowEvolves RowEvolves-refl (find_request k s.requests);
  capabilities = λ h.
      MayBecome-refl CapabilityEvolves CapabilityEvolves-refl (find_capability h s.capabilities);
  log = Extends-refl s.events;
  unique = λ u. u;
}

pub Evolves-trans : (s t u : Store) → Evolves s t → Evolves t u → Evolves s u
Evolves-trans s t u p q = record {
  requests = λ k. MayBecome-trans RowEvolves RowEvolves-trans _ _ _ (p.requests k) (q.requests k);
  capabilities = λ h.
      MayBecome-trans CapabilityEvolves CapabilityEvolves-trans _ _ _ (p.capabilities h)
        (q.capabilities h);
  log = Extends-trans p.log q.log;
  unique = λ u. q.unique (p.unique u);
}

instance pub Evolves-preorder : Preorder Evolves
Evolves-preorder = record { same = Evolves-refl; step = Evolves-trans }

-- A keyed update whose change is a step of `R`.
module _ {Row : Type 0} (key : Row → String) (R : Row → Row → Type 0)
    (same : (r : Row) → R r r) where
  pub update-MayBecome :
      (k j : String) (guard : Row → Bool) (change : Row → Row) (rows : List Row)
      → ((r : Row) → key (change r) ≡ key r)
      → ((r : Row) → guard r ≡ true → R r (change r))
      → MayBecome R (find key j rows) (find key j (update key k guard change rows))
  unfolding find update
  update-MayBecome k j guard change [] keyed allowed = tt
  update-MayBecome k j guard change (r ∷ rows) keyed allowed = ground (
    arith,
    same r,
    allowed r,
    keyed r,
    update-MayBecome k j guard change rows keyed allowed,
    MayBecome-refl R same (find key j rows),
  )

  pub append-MayBecome :
      (j : String) (rows : List Row) (r : Row)
      → MayBecome R (find key j rows) (find key j (rows ++ r ∷ []))
  unfolding find
  append-MayBecome j [] r = tt
  append-MayBecome j (x ∷ rows) r = ground (arith, same x, append-MayBecome j rows r)

module _ {A : Type 0} (R : A → A → Type 0) where
  found_later :
      (o p : Option A) (a : A) → MayBecome R o p → o ≡ some a → (b : A) × (p ≡ some b) × R a b
  found_later none p a h e = absurd (false≢true (ap is_some e))
  found_later (some x) none a h e = absurd h
  found_later (some x) (some y) a h e =
      let same : x ≡ a = cc in (y, refl, subst (λ z. R z y) same h)

-- A row that was there before is there after, further on.
pub Evolves-request :
    (s t : Store) (k : String) (r : RequestRow)
    → Evolves s t
    → find_request k s.requests ≡ some r
    → (r' : RequestRow) × (find_request k t.requests ≡ some r') × RowEvolves r r'
Evolves-request s t k r h found = found_later RowEvolves _ _ r (h.requests k) found

pub Evolves-capability :
    (s t : Store) (k : String) (c : CapabilityRow)
    → Evolves s t
    → find_capability k s.capabilities ≡ some c
    → (c' : CapabilityRow) × (find_capability k t.capabilities ≡ some c') × CapabilityEvolves c c'
Evolves-capability s t k c h found = found_later CapabilityEvolves _ _ c (h.capabilities k) found
