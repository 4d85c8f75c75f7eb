-- ===== src/Shared/Client/Timers.antt =====
-- The timers of packages/shared/src/client/MCPClient.ts: what settles a request stops its timer.
use mcp_suite.Common.{
  ℕ, String, ◌≡◌, refl, subst, arith, Bool, true, false, not, ◌||◌, ◌&&◌, some, List, [], ◌∷◌, leb,
  inl, inr, Bool-cases, Option-cases, ◌==◌,
}
use mcp_suite.Json.{Json}
use mcp_suite.Shared.JsonRpc.{member, is_json_rpc_response}
use mcp_suite.Shared.Client.{
  PendingRequest, Settlement, Client, ClientPlatform, new_client, same_number, without_number,
  without_id, is_settled, find_number, find_pending, set_pending, notify, transport_closed,
  timed_out, send_failed,
}
use mcp_suite.Shared.Client.Events.{
  ClientEvent, end_request, waiting_for, settlement_of, send_request, handle_message,
  handle_timeout, handle_send_failure, reject_all, handle_close, note_close, landed,
  transport_started, handshake, handle_event, run_events, requests, notifies, receives, times_out,
  send_ends, send_fails, closes, connects, disconnects, starts, shakes_hands, text_of,
}
use mcp_suite.Shared.Client.Settling.{has_number, is_settled-settle_promise, any-append}

-- The request is in one of the lists of the client.
abbrev is_known : ℕ → Client → Bool
is_known n s =
    has_number n s.timers
    || has_number n s.pending
    || has_number n s.in_flight
    || is_settled n s.settled

-- What was not made yet is nowhere, and what is settled has no timer.
record Quiet (n : ℕ) (s : Client) : Type 0 where
  unmade : not (leb s.issued n) || not (is_known n s) ≡ true
  quiet : not (is_settled n s.settled) || not (has_number n s.timers) ≡ true

has_number-stopped :
    (m n : ℕ) (calls : List PendingRequest)
    → has_number n (without_number m calls) ≡ has_number n calls && not (same_number m n)
has_number-stopped m n [] = refl
has_number-stopped m n (call ∷ calls) = ground (arith, has_number-stopped m n calls)

has_number-without_id :
    (id : String) (n : ℕ) (calls : List PendingRequest)
    → not (has_number n (without_id id calls)) || has_number n calls ≡ true
has_number-without_id id n [] = refl
has_number-without_id id n (call ∷ calls) = ground (arith, has_number-without_id id n calls)

has_number-set_pending :
    (call : PendingRequest) (n : ℕ) (calls : List PendingRequest)
    → not (has_number n (set_pending call calls))
        || (same_number call.number n || has_number n calls)
      ≡ true
unfolding set_pending
has_number-set_pending call n [] = ground arith
has_number-set_pending call n (c ∷ calls) = ground (arith, has_number-set_pending call n calls)

found_number :
    (m n : ℕ) (calls : List PendingRequest) (call : PendingRequest)
    → find_number m calls ≡ some call
    → not (same_number call.number n) || has_number n calls ≡ true
unfolding find_number
found_number m n [] call h = absurd (ground arith)
found_number m n (c ∷ calls) call h = elim (Bool-cases (same_number c.number m)) [
  | inl same ↦
      let here : c ≡ call = ground (arith, same, h) in
      subst
        (λ k. not (same_number k.number n) || (same_number c.number n || has_number n calls) ≡ true)
        here (ground arith)
  | inr differ ↦ ground (arith, found_number m n calls call (ground (arith, differ, h)))
]

found_pending :
    (id : String) (n : ℕ) (calls : List PendingRequest) (call : PendingRequest)
    → find_pending id calls ≡ some call
    → not (same_number call.number n) || has_number n calls ≡ true
unfolding find_pending
found_pending id n [] call h = absurd (ground arith)
found_pending id n (c ∷ calls) call h = elim (Bool-cases (c.id == id)) [
  | inl same ↦
      let here : c ≡ call = ground (arith, same, h) in
      subst
        (λ k. not (same_number k.number n) || (same_number c.number n || has_number n calls) ≡ true)
        here (ground arith)
  | inr differ ↦ ground (arith, found_pending id n calls call (ground (arith, differ, h)))
]

end_request-Quiet :
    (call : PendingRequest) (settlement : Settlement) (n : ℕ) (s : Client)
    → not (same_number call.number n) || is_known n s ≡ true
    → Quiet n s
    → Quiet n (end_request call settlement s)
end_request-Quiet call settlement n s known q = record {
  unmade = ground (
    arith,
    known,
    q.unmade,
    is_settled-settle_promise call.number n settlement s.settled,
    has_number-stopped call.number n s.timers,
    has_number-without_id call.id n s.pending,
  );
  quiet = ground (
    arith,
    q.quiet,
    is_settled-settle_promise call.number n settlement s.settled,
    has_number-stopped call.number n s.timers,
  );
}

reject_all-Quiet :
    (calls : List PendingRequest) (n : ℕ) (s : Client)
    → not (has_number n calls) || is_known n s ≡ true
    → Quiet n s
    → Quiet n (reject_all calls s)
unfolding reject_all
reject_all-Quiet [] n s known q = q
reject_all-Quiet (call ∷ calls) n s known q =
    reject_all-Quiet calls n _
      (ground (
        arith,
        known,
        is_settled-settle_promise call.number n transport_closed s.settled,
        has_number-stopped call.number n s.timers,
      ))
      (record {
        unmade = ground (
          arith,
          known,
          q.unmade,
          is_settled-settle_promise call.number n transport_closed s.settled,
          has_number-stopped call.number n s.timers,
        );
        quiet = ground (
          arith,
          q.quiet,
          is_settled-settle_promise call.number n transport_closed s.settled,
          has_number-stopped call.number n s.timers,
        );
      })

close-Quiet : (n : ℕ) (s : Client) → Quiet n s → Quiet n (handle_close s)
unfolding handle_close
close-Quiet n s q =
    let r : Quiet n (reject_all s.pending (note_close s)) =
      reject_all-Quiet s.pending n (note_close s) (ground arith)
        (record { unmade = q.unmade; quiet = q.quiet }) in
    record { unmade = ground (arith, r.unmade); quiet = r.quiet }

timeout-Quiet : (m n : ℕ) (s : Client) → Quiet n s → Quiet n (handle_timeout m s)
unfolding handle_timeout
timeout-Quiet m n s q = elim (Option-cases (find_number m s.timers)) [
  | inl stopped ↦ rw (handle_timeout, stopped) q
  | inr (call, live) ↦
      rw (handle_timeout, live)
        (end_request-Quiet call (timed_out call.method) n s
          (ground (arith, found_number m n s.timers call live)) q)
]

landed-Quiet : (m n : ℕ) (s : Client) → Quiet n s → Quiet n (landed m s)
landed-Quiet m n s q = record {
  unmade = ground (arith, q.unmade, has_number-stopped m n s.in_flight);
  quiet = q.quiet;
}

-- The request is still known where it is taken from the requests in flight.
failed_send :
    (call : PendingRequest) (m n : ℕ) (s : Client)
    → find_number m s.in_flight ≡ some call
    → Quiet n s
    → Quiet n (end_request call send_failed (landed m s))
failed_send call m n s live q =
    let after : Quiet n (end_request call send_failed s) =
      end_request-Quiet call send_failed n s
        (ground (arith, found_number m n s.in_flight call live)) q in
    record {
      unmade = ground (arith, after.unmade, has_number-stopped m n s.in_flight);
      quiet = after.quiet;
    }

module _ (platform : ClientPlatform) where
  request-Quiet :
      (method : String) (params : Json) (n : ℕ) (s : Client)
      → Quiet n s
      → Quiet n (send_request platform method params s).1
  unfolding send_request
  request-Quiet method params n s q =
      let call : PendingRequest = record {
        number = s.issued;
        id = platform.uuid s.issued;
        method = method;
      } in
      record {
        unmade = ground (
          arith,
          q.unmade,
          any-append (λ c. same_number c.number n) s.timers (call ∷ []),
          any-append (λ c. same_number c.number n) s.in_flight (call ∷ []),
          has_number-set_pending call n s.pending,
        );
        quiet = ground (
          arith,
          q.unmade,
          q.quiet,
          any-append (λ c. same_number c.number n) s.timers (call ∷ []),
        );
      }

  known_waiting :
      (message : Json) (n : ℕ) (s : Client) (call : PendingRequest)
      → waiting_for message s ≡ some call
      → not (same_number call.number n) || has_number n s.pending ≡ true
  known_waiting message n s call h = elim (Option-cases (text_of (member "id" message))) [
    | inl no_text ↦ absurd (ground (arith, no_text, h))
    | inr (id, text) ↦ found_pending id n s.pending call (ground (arith, text, h))
  ]

  message-Quiet :
      (message : Json) (n : ℕ) (s : Client)
      → Quiet n s
      → Quiet n (handle_message platform message s)
  unfolding handle_message
  message-Quiet message n s q = elim (Bool-cases (is_json_rpc_response message)) [
    | inl response ↦ elim (Option-cases (waiting_for message s)) [
      | inl unknown ↦ rw (response, unknown) q
      | inr (call, known) ↦
          rw (response, known)
            (end_request-Quiet call (settlement_of platform message) n s
              (ground (arith, known_waiting message n s call known)) q)
    ]
    | inr other ↦ record {
      unmade = ground (arith, other, q.unmade);
      quiet = ground (arith, other, q.quiet);
    }
  ]

  failure-Quiet : (m n : ℕ) (s : Client) → Quiet n s → Quiet n (handle_send_failure m s)
  unfolding handle_send_failure
  failure-Quiet m n s q = elim (Option-cases (find_number m s.in_flight)) [
    | inl ended ↦ rw (handle_send_failure, ended) q
    | inr (call, live) ↦ rw (handle_send_failure, live) (failed_send call m n s live q)
  ]

  handle_event-Quiet :
      (event : ClientEvent) (n : ℕ) (s : Client)
      → Quiet n s
      → Quiet n (handle_event platform event s)
  unfolding handle_event notify handle_close transport_started handshake
  handle_event-Quiet (requests method params) n s q = request-Quiet method params n s q
  handle_event-Quiet (notifies method params) n s q = record {
    unmade = ground (arith, q.unmade);
    quiet = ground (arith, q.quiet);
  }
  handle_event-Quiet (receives message) n s q = message-Quiet message n s q
  handle_event-Quiet (times_out m) n s q = timeout-Quiet m n s q
  handle_event-Quiet (send_ends m) n s q = landed-Quiet m n s q
  handle_event-Quiet (send_fails m) n s q = failure-Quiet m n s q
  handle_event-Quiet closes n s q = close-Quiet n s q
  handle_event-Quiet connects n s q = record { unmade = q.unmade; quiet = q.quiet }
  handle_event-Quiet disconnects n s q = record { unmade = q.unmade; quiet = q.quiet }
  handle_event-Quiet (starts params) n s q =
      request-Quiet "initialize" params n (record s { is_connected = true })
        (record { unmade = q.unmade; quiet = q.quiet })
  handle_event-Quiet (shakes_hands result) n s q = record {
    unmade = ground (arith, q.unmade);
    quiet = ground (arith, q.quiet);
  }

  run_events-Quiet :
      (events : List ClientEvent) (n : ℕ) (s : Client)
      → Quiet n s
      → Quiet n (run_events platform events s)
  unfolding run_events
  run_events-Quiet [] n s q = q
  run_events-Quiet (event ∷ events) n s q =
      run_events-Quiet events n (handle_event platform event s) (handle_event-Quiet event n s q)

  -- Whatever happened: once a request is settled, by a response, its timer, a failure to send or the end of
  -- the transport, its timer does not run any more.
  pub run_events_quiet :
      (events : List ClientEvent) (n : ℕ)
      → is_settled n (run_events platform events new_client).settled ≡ true
      → has_number n (run_events platform events new_client).timers ≡ false
  run_events_quiet events n settled =
      let q : Quiet n (run_events platform events new_client) =
        run_events-Quiet events n new_client (record { unmade = ground arith; quiet = refl }) in
      ground (arith, settled, q.quiet)
