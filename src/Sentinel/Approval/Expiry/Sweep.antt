-- ===== src/Sentinel/Approval/Expiry/Sweep.antt =====
-- `expireDue` of packages/sentinel/src/approval/ApprovalStore.ts against the rule that it implements:
-- one request after another, and what each row is after the sweep.
use mcp_suite.Common.{
  ℕ, ◌+◌, ◌<◌, All, String, ◌≡◌, refl, ap, ◌∙◌, Bool, true, false, Option, none, some, List, [],
  ◌∷◌, arith, ◌==◌, eq_iff, if◌then◌else◌, any, leb, length, inl, inr, Option-cases, Bool-cases,
}
use mathlib.Core.Option
use mcp_suite.Effect.{ok, is_ok, bind-ok, ◌>>=◌}
use mcp_suite.Table.{find, update, changes, updated, find-update, KeysUnique}
use mcp_suite.Sentinel.Approval.Model.{
  ApprovalStatus, ApprovalEventType, RequestRow, Store, Env, Action,
}
use mcp_suite.Sentinel.Approval.Input.{now}
use mcp_suite.Sentinel.Approval.Sql.{
  find_request, insert_event, update_pending, still_pending, with_outcome, transition_pending,
  timeout_actor, expired_reason, is_due, transaction,
}
use mcp_suite.Sentinel.Approval.Sql.Equations.{lapsed_row, transaction_returns}
use mcp_suite.Sentinel.Approval.Expiry.{year_10000, due_rows, expire_each, expire_due}

-- What the sweep at time `at` writes to a row that it was told to expire.
abbrev expire_pending : ℕ → RequestRow → RequestRow
expire_pending at =
    updated (λ r. r.id) still_pending
      (with_outcome ApprovalStatus.expired at timeout_actor expired_reason)

abbrev listed : String → List RequestRow → Bool
listed k = any (λ r. r.id == k)

-- The requests expire before the year 10000.
abbrev pub AreEarly : List RequestRow → Type 0
AreEarly = All (λ r. r.expires_at < year_10000)

module _ (env : Env) (at : ℕ) where
  abbrev expire_one : String → Action ℕ
  expire_one id =
      transition_pending env id ApprovalStatus.expired at timeout_actor expired_reason
        ApprovalEventType.expired

  expire_one_ok :
      (s : Store) (id : String)
      → (expire_one id s).0 ≡ ok (changes (λ r. r.id) id still_pending s.requests)
  unfolding transition_pending update_pending insert_event changes ◌>>=◌
  expire_one_ok s id = elim (Option-cases (find_request id s.requests)) [
    | inl missing ↦ ground arith
    | inr (row, found) ↦ ground (
      arith,
      eq_iff id id,
      find-update (λ r. r.id) id id still_pending
          (with_outcome ApprovalStatus.expired at timeout_actor expired_reason) s.requests,
    )
  ]

  requests-expire_one :
      (s : Store) (id : String)
      → (expire_one id s).1.requests
        ≡ update
            (λ r. r.id)
            id
            still_pending
            (with_outcome ApprovalStatus.expired at timeout_actor expired_reason)
            s.requests
  unfolding transition_pending update_pending insert_event changes ◌>>=◌
  requests-expire_one s id = ground arith

  find-expire_one :
      (s : Store) (id k : String)
      → find_request k (expire_one id s).1.requests ≡ (
          if id == k
          then Option.map (expire_pending at) (find_request k s.requests)
          else find_request k s.requests)
  find-expire_one s id k = rw (requests-expire_one s id) (
      find-update (λ r. r.id) id k still_pending
        (with_outcome ApprovalStatus.expired at timeout_actor expired_reason) s.requests
        (λ r. refl))

  expire_pending_twice :
      (o : Option RequestRow)
      → Option.map (expire_pending at) (Option.map (expire_pending at) o)
        ≡ Option.map (expire_pending at) o
  expire_pending_twice none = refl
  expire_pending_twice (some r) = ground arith

  -- The loop returns, and expires the listed rows that are pending.
  expire_each_lem :
      (rows : List RequestRow) (s : Store) (n : ℕ) (k : String)
      → (find_request k (expire_each env at rows n s).1.requests ≡ (
          if listed k rows
          then Option.map (expire_pending at) (find_request k s.requests)
          else find_request k s.requests))
        × (is_ok (expire_each env at rows n s).0 ≡ true)
  unfolding expire_each
  expire_each_lem [] s n k = (refl, refl)
  expire_each_lem (row ∷ rows) s n k =
      let t = (expire_one row.id s).1 in
      let more = changes (λ r. r.id) row.id still_pending s.requests in
      let rest = expire_each_lem rows t (n + more) k in
      rw
        (bind-ok (expire_one row.id) (λ m. expire_each env at rows (n + m)) s {a = more} {t = t}
          (ap (λ r. (r, t)) (expire_one_ok s row.id)))
        (ground (
          arith,
          rest.0,
          rest.1,
          find-expire_one s row.id k,
          expire_pending_twice (find_request k s.requests),
        ))

  -- Where ids are unique, the rows that are due are those that the ids find to be due.
  listed-due_rows :
      (rows : List RequestRow) (k : String)
      → at < year_10000
      → AreEarly rows
      → KeysUnique (λ r. r.id) rows
      → listed k (due_rows at rows)
        ≡ elim (find_request k rows) [ none ↦ false | some r ↦ is_due r.status r.expires_at at ]
  unfolding find
  listed-due_rows [] k early e u = refl
  listed-due_rows (x ∷ rows) k early e u =
      ground (arith, early, e.0, listed-due_rows rows k early e.1 u.1, eq_iff x.id k)

  sweep_row :
      (rows : List RequestRow) (k : String)
      → at < year_10000
      → AreEarly rows
      → KeysUnique (λ r. r.id) rows
      → (if listed k (due_rows at rows)
          then Option.map (expire_pending at) (find_request k rows)
          else find_request k rows)
        ≡ Option.map (lapsed_row at) (find_request k rows)
  sweep_row rows k early e u =
      rw (listed-due_rows rows k early e u) (sweep_cases (find_request k rows))
    where
      sweep_cases :
          (o : Option RequestRow)
          → (if elim o [ none ↦ false | some r ↦ is_due r.status r.expires_at at ]
              then Option.map (expire_pending at) o
              else o)
            ≡ Option.map (lapsed_row at) o
      sweep_cases none = refl
      sweep_cases (some r) = ground arith

  -- A sweep that finds nothing to do is a sweep of no row.
  swept :
      (s : Store) (k : String)
      → at < year_10000
      → AreEarly s.requests
      → KeysUnique (λ r. r.id) s.requests
      → (find_request k (expire_each env at (due_rows at s.requests) 0 s).1.requests
          ≡ Option.map (lapsed_row at) (find_request k s.requests))
        × (is_ok (expire_each env at (due_rows at s.requests) 0 s).0 ≡ true)
  swept s k early e u =
      let each = expire_each_lem (due_rows at s.requests) s 0 k in
      (each.0 ∙ sweep_row s.requests k early e u, each.1)

nothing_due : (rows : List RequestRow) → leb (length rows) 0 ≡ true → rows ≡ []
nothing_due [] h = refl
nothing_due (x ∷ rows) h = absurd (ground arith)

module _ (env : Env) where
  -- Where the primary key holds, and the clock and the expiries are before the year 10000, `expireDue` returns, and afterwards each request is what it was,
  -- but for those that were pending and due at the time the call read: they are expired, by the system,
  -- at that time.
  pub expire_due_lem :
      (s : Store) (k : String)
      → env.clock s.clock_reads < year_10000
      → AreEarly s.requests
      → KeysUnique (λ r. r.id) s.requests
      → (find_request k (expire_due env s).1.requests
          ≡ Option.map (lapsed_row (env.clock s.clock_reads)) (find_request k s.requests))
        × (is_ok (expire_due env s).0 ≡ true)
  unfolding expire_due transaction now ◌>>=◌
  expire_due_lem s k early e u =
      let at : ℕ = env.clock s.clock_reads in
      let all = swept env at (now env s).1 k early e u in
      elim (Bool-cases (leb (length (due_rows at s.requests)) 0)) [
        | inl none_due ↦ rw none_due (
          rw (nothing_due (due_rows at s.requests) none_due) at
              (sweep_row env at s.requests k early e u),
          refl,
        )
        | inr some_due ↦
            rw
              (
                some_due,
                transaction_returns (expire_each env at (due_rows at s.requests) 0) (now env s).1
                    all.1,
              )
              all
      ]
