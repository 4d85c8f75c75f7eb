-- ===== src/Shared/Client/Matching.antt =====
-- With distinct ids, the requests of packages/shared/src/client/MCPClient.ts that wait are those whose timer
-- runs: each method but the end of the transport keeps this.
use mcp_suite.Common.{
  ℕ, suc, ◌<◌, ◌≤◌, String, ◌≡◌, refl, sym, ap, subst, ◌∙◌, arith, not, ◌&&◌, some, List, [], ◌∷◌,
  ◌++◌, ◌==◌, eq_iff, inl, inr, Bool-cases, Option-cases, All, All-snoc,
}
use mcp_suite.Json.{Json}
use mcp_suite.Shared.JsonRpc.{is_json_rpc_response, is_json_rpc_notification, member}
use mcp_suite.Shared.Client.{
  PendingRequest, Settlement, Client, ClientPlatform, same_number, without_number, without_id,
  find_pending, find_number, set_pending, timed_out, send_failed,
}
use mcp_suite.Shared.Client.Events.{
  end_request, waiting_for, text_of, settlement_of, start_request, send_request, handle_message,
  handle_timeout, handle_send_failure, landed,
}

module _ (platform : ClientPlatform) where
  -- An id was drawn for the number, before this many requests.
  pub record Drawn (issued : ℕ) (call : PendingRequest) : Type 0 where
    pub own : call.id ≡ platform.uuid call.number
    pub old : call.number < issued

  -- No two requests get one id.
  unfoldable pub Distinct : Type 0
  Distinct = (m n : ℕ) → platform.uuid m ≡ platform.uuid n → m ≡ n

  pub record Matched (s : Client) : Type 0 where
    pub same : s.pending ≡ s.timers
    pub timed : All (Drawn s.issued) s.timers
    pub flying : All (Drawn s.issued) s.in_flight

  same_test :
      Distinct
      → {issued : ℕ} (a b : PendingRequest) → Drawn issued a
      → Drawn issued b
      → (a.id == b.id) ≡ same_number a.number b.number
  unfolding Distinct
  same_test distinct a b p q = elim (Bool-cases (same_number a.number b.number)) [
    | inl same ↦
        (eq_iff a.id b.id).1 (p.own ∙ ap platform.uuid (ground arith) ∙ sym q.own) ∙ sym same
    | inr differ ↦ elim (Bool-cases (a.id == b.id)) [
      | inr apart ↦ apart ∙ sym differ
      | inl alike ↦ absurd (
          ground (
            arith,
            differ,
            distinct a.number b.number (sym p.own ∙ (eq_iff a.id b.id).0 alike ∙ q.own),
          ))
    ]
  ]

  without_lem :
      Distinct
      → {issued : ℕ} (call : PendingRequest) (calls : List PendingRequest) → Drawn issued call
      → All (Drawn issued) calls
      → without_id call.id calls ≡ without_number call.number calls
  without_lem distinct call [] p h = refl
  without_lem distinct call (c ∷ calls) p h =
      ground (arith, same_test distinct c call h.0 p, without_lem distinct call calls p h.1)

  set_pending_lem :
      Distinct
      → (call : PendingRequest) (calls : List PendingRequest) → call.id ≡ platform.uuid call.number
      → All (Drawn call.number) calls
      → set_pending call calls ≡ calls ++ call ∷ []
  unfolding set_pending Distinct
  set_pending_lem distinct call [] own h = refl
  set_pending_lem distinct call (c ∷ calls) own h = elim (Bool-cases (c.id == call.id)) [
    | inl same ↦ absurd (
        ground (
          arith,
          h.0.old,
          distinct c.number call.number (sym h.0.own ∙ (eq_iff c.id call.id).0 same ∙ own),
        ))
    | inr differ ↦ rw differ (ap (λ cs. c ∷ cs) (set_pending_lem distinct call calls own h.1))
  ]

  All-later :
      (m n : ℕ) (calls : List PendingRequest) → m ≤ n → All (Drawn m) calls → All (Drawn n) calls
  All-later m n [] below h = tt
  All-later m n (c ∷ calls) below h =
      (record { own = h.0.own; old = omega (arith, h.0.old) }, All-later m n calls below h.1)

  All-without :
      (issued n : ℕ) (calls : List PendingRequest)
      → All (Drawn issued) calls
      → All (Drawn issued) (without_number n calls)
  All-without issued n [] h = tt
  All-without issued n (c ∷ calls) h = elim (Bool-cases (same_number c.number n)) [
    | inl same ↦ rw same (All-without issued n calls h.1)
    | inr differ ↦ rw differ (h.0, All-without issued n calls h.1)
  ]

  found_id :
      (issued : ℕ) (id : String) (calls : List PendingRequest) (call : PendingRequest)
      → All (Drawn issued) calls
      → find_pending id calls ≡ some call
      → Drawn issued call
  unfolding find_pending
  found_id issued id [] call h found = absurd (ground arith)
  found_id issued id (c ∷ calls) call h found = elim (Bool-cases (c.id == id)) [
    | inl same ↦ subst (Drawn issued) {x = c} (ground (arith, same, found)) h.0
    | inr differ ↦ found_id issued id calls call h.1 (ground (arith, differ, found))
  ]

  found_number :
      (issued n : ℕ) (calls : List PendingRequest) (call : PendingRequest)
      → All (Drawn issued) calls
      → find_number n calls ≡ some call
      → Drawn issued call
  unfolding find_number
  found_number issued n [] call h found = absurd (ground arith)
  found_number issued n (c ∷ calls) call h found = elim (Bool-cases (same_number c.number n)) [
    | inl same ↦ subst (Drawn issued) {x = c} (ground (arith, same, found)) h.0
    | inr differ ↦ found_number issued n calls call h.1 (ground (arith, differ, found))
  ]

  end_request-Matched :
      Distinct
      → (call : PendingRequest) (settlement : Settlement) (s : Client) → Drawn s.issued call
      → Matched s
      → Matched (end_request call settlement s)
  end_request-Matched distinct call settlement s p m = record {
    same = ap (without_id call.id) m.same ∙ without_lem distinct call s.timers p m.timed;
    timed = All-without s.issued call.number s.timers m.timed;
    flying = m.flying;
  }

  request-Matched :
      Distinct
      → (method : String) (params : Json) (s : Client) → Matched s
      → Matched (start_request platform method params s)
  request-Matched distinct method params s m =
      let call : PendingRequest = record {
        number = s.issued;
        id = platform.uuid s.issued;
        method = method;
      } in
      let new : Drawn (suc s.issued) call = record { own = refl; old = omega arith } in
      record {
        same = ap (set_pending call) m.same ∙ set_pending_lem distinct call s.timers refl m.timed;
        timed =
            All-snoc (Drawn (suc s.issued)) s.timers call
              (All-later s.issued (suc s.issued) s.timers (omega arith) m.timed) new;
        flying =
            All-snoc (Drawn (suc s.issued)) s.in_flight call
              (All-later s.issued (suc s.issued) s.in_flight (omega arith) m.flying) new;
      }

  pub send_request-Matched :
      Distinct
      → (method : String) (params : Json) (s : Client) → Matched s
      → Matched (send_request platform method params s).1
  unfolding send_request
  send_request-Matched distinct method params s m =
      elim (Bool-cases (not s.is_connected && not (method == "initialize"))) [
        | inl refused ↦ rw refused m
        | inr sends ↦ rw sends (request-Matched distinct method params s m)
      ]

  waiting_for-Drawn :
      (message : Json) (s : Client) (call : PendingRequest)
      → Matched s
      → waiting_for message s ≡ some call
      → Drawn s.issued call
  waiting_for-Drawn message s call m found = elim (Option-cases (text_of (member "id" message))) [
    | inl no_text ↦ absurd (ground (arith, no_text, found))
    | inr (id, named) ↦
        found_id s.issued id s.timers call m.timed
          (sym (ap (find_pending id) m.same) ∙ ground (arith, named, found))
  ]

  pub message-Matched :
      Distinct
      → (message : Json) (s : Client) → Matched s
      → Matched (handle_message platform message s)
  unfolding handle_message
  message-Matched distinct message s m = elim (Bool-cases (is_json_rpc_response message)) [
    | inl response ↦ elim (Option-cases (waiting_for message s)) [
      | inl unknown ↦ rw (response, unknown) m
      | inr (call, known) ↦
          rw (response, known)
            (end_request-Matched distinct call (settlement_of platform message) s
              (waiting_for-Drawn message s call m known) m)
    ]
    | inr other ↦ elim (Bool-cases (is_json_rpc_notification message)) [
      | inr unknown ↦ rw (other, unknown) m
      | inl notified ↦ elim (Option-cases (member "method" message)) [
        | inl unnamed ↦ rw (other, notified, unnamed) m
        | inr (method, named) ↦
            rw (other, notified, named)
              (record { same = m.same; timed = m.timed; flying = m.flying })
      ]
    ]
  ]

  pub timeout-Matched : Distinct → (n : ℕ) (s : Client) → Matched s → Matched (handle_timeout n s)
  unfolding handle_timeout
  timeout-Matched distinct n s m = elim (Option-cases (find_number n s.timers)) [
    | inl stopped ↦ rw (handle_timeout, stopped) m
    | inr (call, live) ↦
        rw (handle_timeout, live)
          (end_request-Matched distinct call (timed_out call.method) s
            (found_number s.issued n s.timers call m.timed live) m)
  ]

  pub landed-Matched : (n : ℕ) (s : Client) → Matched s → Matched (landed n s)
  landed-Matched n s m = record {
    same = m.same;
    timed = m.timed;
    flying = All-without s.issued n s.in_flight m.flying;
  }

  pub failure-Matched :
      Distinct → (n : ℕ) (s : Client) → Matched s → Matched (handle_send_failure n s)
  unfolding handle_send_failure
  failure-Matched distinct n s m = elim (Option-cases (find_number n s.in_flight)) [
    | inl ended ↦ rw (handle_send_failure, ended) m
    | inr (call, live) ↦
        rw (handle_send_failure, live)
          (end_request-Matched distinct call send_failed (landed n s)
            (found_number s.issued n s.in_flight call m.flying live) (landed-Matched n s m))
  ]
