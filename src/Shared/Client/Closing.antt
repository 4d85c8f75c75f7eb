-- ===== src/Shared/Client/Closing.antt =====
-- What packages/shared/src/client/MCPClient.ts promises of its requests: with distinct ids, those that wait
-- are those whose timer runs, so that the end of the transport settles them all.
use mcp_suite.Common.{
  ℕ, ◌<◌, ◌≡◌, refl, sym, subst, ◌∙◌, arith, true, List, [], ◌∷◌, inl, inr, Bool-cases, All,
}
use mcp_suite.Shared.Client.{
  PendingRequest, Client, ClientPlatform, new_client, same_number, without_number, is_settled,
  notify,
}
use mcp_suite.Shared.Client.Events.{
  ClientEvent, reject_all, handle_close, note_close, transport_started, handshake, handle_event,
  run_events, requests, notifies, receives, times_out, send_ends, send_fails, closes, connects,
  disconnects, starts, shakes_hands,
}
use mcp_suite.Shared.Client.Matching.{
  Drawn, Distinct, Matched, send_request-Matched, message-Matched, timeout-Matched, landed-Matched,
  failure-Matched,
}
use mcp_suite.Shared.Client.Settling.{
  Accounted, has_number, run_events-Accounted, handle_close-Accounted, new_client-Accounted,
}

module _ (platform : ClientPlatform) where
  none_left :
      (calls : List PendingRequest) → All (λ t. has_number t.number [] ≡ true) calls → calls ≡ []
  none_left [] h = refl
  none_left (c ∷ calls) h = absurd (ground (arith, h.0))

  narrowed :
      (call : PendingRequest) (calls timers : List PendingRequest)
      → All (λ t. has_number t.number (call ∷ calls) ≡ true) timers
      → All (λ t. has_number t.number calls ≡ true) (without_number call.number timers)
  narrowed call calls [] h = tt
  narrowed call calls (t ∷ timers) h = elim (Bool-cases (same_number t.number call.number)) [
    | inl same ↦ rw same (narrowed call calls timers h.1)
    | inr differ ↦ rw differ (ground (arith, h.0, differ), narrowed call calls timers h.1)
  ]

  widened :
      (call : PendingRequest) (calls timers : List PendingRequest)
      → All (λ t. has_number t.number calls ≡ true) timers
      → All (λ t. has_number t.number (call ∷ calls) ≡ true) timers
  widened call calls [] h = tt
  widened call calls (t ∷ timers) h = (ground (arith, h.0), widened call calls timers h.1)

  All-own : (calls : List PendingRequest) → All (λ t. has_number t.number calls ≡ true) calls
  All-own [] = tt
  All-own (c ∷ calls) = (ground arith, widened c calls calls (All-own calls))

  -- The loop of the listener: no timer of these calls runs any more, and the rest of the state stays.
  gone_after :
      (calls : List PendingRequest) (s : Client)
      → All (λ t. has_number t.number calls ≡ true) s.timers
      → (reject_all calls s).timers ≡ []
  unfolding reject_all
  gone_after [] s h = none_left s.timers h
  gone_after (call ∷ calls) s h = gone_after calls _ (narrowed call calls s.timers h)

  rest_after :
      (calls : List PendingRequest) (s : Client)
      → ((reject_all calls s).issued ≡ s.issued) × ((reject_all calls s).in_flight ≡ s.in_flight)
  unfolding reject_all
  rest_after [] s = (refl, refl)
  rest_after (call ∷ calls) s = rest_after calls _

  -- What is left of the timers once the transport is closed.
  closed_timers : (s : Client) → Matched platform s → (handle_close s).timers ≡ []
  unfolding handle_close
  closed_timers s m = gone_after s.pending (note_close s) (
      subst (λ calls. All (λ t. has_number t.number calls ≡ true) s.timers) (sym m.same)
        (All-own s.timers))

  close-Matched : (s : Client) → Matched platform s → Matched platform (handle_close s)
  unfolding handle_close
  close-Matched s m =
      let (same_issued, same_flying) = rest_after s.pending (note_close s) in
      record {
        same = sym (closed_timers s m);
        timed =
            subst (All (Drawn platform (reject_all s.pending (note_close s)).issued)) {x = []}
              (sym (closed_timers s m)) tt;
        flying =
            subst (λ n. All (Drawn platform n) (reject_all s.pending (note_close s)).in_flight)
              (sym same_issued) (subst (All (Drawn platform s.issued)) (sym same_flying) m.flying);
      }

  relabel :
      (s t : Client)
      → Matched platform s
      → t.pending ≡ s.pending
      → t.timers ≡ s.timers
      → t.in_flight ≡ s.in_flight
      → t.issued ≡ s.issued
      → Matched platform t
  relabel s t m p q r i = record {
    same = p ∙ m.same ∙ sym q;
    timed =
        subst (λ n. All (Drawn platform n) t.timers) (sym i)
          (subst (All (Drawn platform s.issued)) (sym q) m.timed);
    flying =
        subst (λ n. All (Drawn platform n) t.in_flight) (sym i)
          (subst (All (Drawn platform s.issued)) (sym r) m.flying);
  }

  handle_event-Matched :
      Distinct platform
      → (event : ClientEvent) (s : Client) → Matched platform s
      → Matched platform (handle_event platform event s)
  unfolding handle_event notify transport_started handshake
  handle_event-Matched distinct (requests method params) s m =
      send_request-Matched platform distinct method params s m
  handle_event-Matched distinct (notifies method params) s m =
      relabel s (notify method params s).1 m (ground arith) (ground arith) (ground arith)
        (ground arith)
  handle_event-Matched distinct (receives message) s m =
      message-Matched platform distinct message s m
  handle_event-Matched distinct (times_out n) s m = timeout-Matched platform distinct n s m
  handle_event-Matched distinct (send_ends n) s m = landed-Matched platform n s m
  handle_event-Matched distinct (send_fails n) s m = failure-Matched platform distinct n s m
  handle_event-Matched distinct closes s m = close-Matched s m
  handle_event-Matched distinct connects s m = record {
    same = m.same;
    timed = m.timed;
    flying = m.flying;
  }
  handle_event-Matched distinct disconnects s m = record {
    same = m.same;
    timed = m.timed;
    flying = m.flying;
  }
  handle_event-Matched distinct (starts params) s m =
      send_request-Matched platform distinct "initialize" params (record s { is_connected = true })
        (record { same = m.same; timed = m.timed; flying = m.flying })
  handle_event-Matched distinct (shakes_hands result) s m =
      relabel s (handshake result s).1 m (ground arith) (ground arith) (ground arith) (ground arith)

  pub run_events-Matched :
      Distinct platform
      → (events : List ClientEvent) (s : Client) → Matched platform s
      → Matched platform (run_events platform events s)
  unfolding run_events
  run_events-Matched distinct [] s m = m
  run_events-Matched distinct (event ∷ events) s m =
      run_events-Matched distinct events (handle_event platform event s)
        (handle_event-Matched distinct event s m)

  issued-handle_close : (s : Client) → (handle_close s).issued ≡ s.issued
  unfolding handle_close
  issued-handle_close s = (rest_after s.pending (note_close s)).0

  -- Where no two requests get one id: once the transport is closed, every request that was made is
  -- settled, whatever happened before.
  pub close_settles :
      Distinct platform
      → (events : List ClientEvent) (n : ℕ) → n < (run_events platform events new_client).issued
      → is_settled n (handle_close (run_events platform events new_client)).settled ≡ true
  close_settles distinct events n made =
      let s : Client = run_events platform events new_client in
      let idle : (handle_close s).timers ≡ [] = closed_timers s (
        run_events-Matched distinct events new_client
          (record { same = refl; timed = tt; flying = tt })) in
      let accounted : Accounted n (handle_close s) =
        handle_close-Accounted n s
          (run_events-Accounted platform events n new_client (new_client-Accounted n)) in
      let issued : (handle_close s).issued ≡ s.issued = issued-handle_close s in
      ground (arith, made, idle, accounted, issued)
