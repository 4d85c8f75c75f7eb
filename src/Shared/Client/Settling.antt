-- ===== src/Shared/Client/Settling.antt =====
-- No request of packages/shared/src/client/MCPClient.ts is forgotten: until it is settled its timer runs.
use mcp_suite.Common.{
  ℕ, String, ◌<◌, ◌≡◌, refl, subst, ◌∙◌, arith, Bool, true, ◌||◌, some, List, [], ◌∷◌, ◌++◌, leb,
  any, inl, inr, Bool-cases, Option-cases, is_some,
}
use mcp_suite.Json.{Json}
use mcp_suite.Shared.JsonRpc.{is_json_rpc_response}
use mcp_suite.Shared.Client.{
  PendingRequest, Settlement, Settled, Client, ClientPlatform, new_client, same_number,
  without_number, is_settled, settle_promise, find_number, notify, transport_closed, timed_out,
  send_failed,
}
use mcp_suite.Shared.Client.Events.{
  ClientEvent, end_request, waiting_for, settlement_of, send_request, handle_message,
  handle_timeout, handle_send_failure, reject_all, handle_close, note_close, landed,
  transport_started, handshake, handle_event, run_events, requests, notifies, receives, times_out,
  send_ends, send_fails, closes, connects, disconnects, starts, shakes_hands,
}

abbrev pub has_number : ℕ → List PendingRequest → Bool
has_number n calls = any (λ call. same_number call.number n) calls

pub any-append {ℓ} :
    {A : Type ℓ} (test : A → Bool) (xs ys : List A)
    → any test (xs ++ ys) ≡ any test xs || any test ys
any-append test [] ys = refl
any-append test (x ∷ xs) ys = ground (arith, any-append test xs ys)

has_number-without :
    (m n : ℕ) (calls : List PendingRequest)
    → has_number n (without_number m calls) || same_number m n
      ≡ has_number n calls || same_number m n
has_number-without m n [] = refl
has_number-without m n (call ∷ calls) = ground (arith, has_number-without m n calls)

pub is_settled-settle_promise :
    (m n : ℕ) (settlement : Settlement) (settled : List Settled)
    → is_settled n (settle_promise m settlement settled) ≡ is_settled n settled || same_number m n
is_settled-settle_promise m n settlement settled = elim (Bool-cases (is_settled m settled)) [
  | inr fresh ↦ rw fresh (
      any-append (λ s. same_number s.number n) settled
        (record { number = m; settlement = settlement } ∷ [])
      ∙ ground arith)
  | inl old ↦ elim (Bool-cases (same_number m n)) [
    | inr differ ↦ rw (old, differ) (ground arith)
    | inl same ↦
        rw (old, same)
          (subst (λ k. is_settled k settled ≡ is_settled k settled || true) {x = m} (ground arith)
            (ground (arith, old)))
  ]
]

-- The request does not exist yet, is settled, or its timer runs.
abbrev pub Accounted : ℕ → Client → Type 0
Accounted n s = leb s.issued n || is_settled n s.settled || has_number n s.timers ≡ true

has_number-find :
    (n : ℕ) (calls : List PendingRequest) → has_number n calls ≡ is_some (find_number n calls)
unfolding find_number
has_number-find n [] = refl
has_number-find n (call ∷ calls) = ground (arith, has_number-find n calls)

number-find :
    (n : ℕ) (calls : List PendingRequest) (call : PendingRequest)
    → find_number n calls ≡ some call
    → same_number call.number n ≡ true
unfolding find_number
number-find n [] call h = absurd (ground arith)
number-find n (c ∷ calls) call h = elim (Bool-cases (same_number c.number n)) [
  | inl same ↦
      let here : c ≡ call = ground (arith, same, h) in
      subst (λ k. same_number k.number n ≡ true) here same
  | inr differ ↦ number-find n calls call (ground (arith, differ, h))
]

pub new_client-Accounted : (n : ℕ) → Accounted n new_client
new_client-Accounted n = ground arith

end_request-Accounted :
    (call : PendingRequest) (settlement : Settlement) (n : ℕ) (s : Client)
    → Accounted n s
    → Accounted n (end_request call settlement s)
end_request-Accounted call settlement n s h = ground (
  arith,
  h,
  is_settled-settle_promise call.number n settlement s.settled,
  has_number-without call.number n s.timers,
)

reject_all-Accounted :
    (calls : List PendingRequest) (n : ℕ) (s : Client)
    → Accounted n s
    → Accounted n (reject_all calls s)
unfolding reject_all
reject_all-Accounted [] n s h = h
reject_all-Accounted (call ∷ calls) n s h = reject_all-Accounted calls n _ (
    ground (
      arith,
      h,
      is_settled-settle_promise call.number n transport_closed s.settled,
      has_number-without call.number n s.timers,
    ))

pub handle_close-Accounted : (n : ℕ) (s : Client) → Accounted n s → Accounted n (handle_close s)
unfolding handle_close
handle_close-Accounted n s h = reject_all-Accounted s.pending n (note_close s) h

module _ (platform : ClientPlatform) where
  request-Accounted :
      (method : String) (params : Json) (n : ℕ) (s : Client)
      → Accounted n s
      → Accounted n (send_request platform method params s).1
  unfolding send_request
  request-Accounted method params n s h = ground (
    arith,
    h,
    any-append (λ c. same_number c.number n) s.timers
        (record { number = s.issued; id = platform.uuid s.issued; method = method } ∷ []),
  )

  message-Accounted :
      (message : Json) (n : ℕ) (s : Client)
      → Accounted n s
      → Accounted n (handle_message platform message s)
  unfolding handle_message
  message-Accounted message n s h = elim (Bool-cases (is_json_rpc_response message)) [
    | inl response ↦ elim (Option-cases (waiting_for message s)) [
      | inl unknown ↦ rw (response, unknown) h
      | inr (call, known) ↦
          rw (response, known) (end_request-Accounted call (settlement_of platform message) n s h)
    ]
    | inr other ↦ ground (arith, other, h)
  ]

  timeout-Accounted : (m n : ℕ) (s : Client) → Accounted n s → Accounted n (handle_timeout m s)
  unfolding handle_timeout
  timeout-Accounted m n s h = elim (Option-cases (find_number m s.timers)) [
    | inl stopped ↦ rw (handle_timeout, stopped) h
    | inr (call, live) ↦
        rw (handle_timeout, live) (end_request-Accounted call (timed_out call.method) n s h)
  ]

  failure-Accounted : (m n : ℕ) (s : Client) → Accounted n s → Accounted n (handle_send_failure m s)
  unfolding handle_send_failure
  failure-Accounted m n s h = elim (Option-cases (find_number m s.in_flight)) [
    | inl ended ↦ rw (handle_send_failure, ended) h
    | inr (call, live) ↦
        rw (handle_send_failure, live) (end_request-Accounted call send_failed n (landed m s) h)
  ]

  handle_event-Accounted :
      (event : ClientEvent) (n : ℕ) (s : Client)
      → Accounted n s
      → Accounted n (handle_event platform event s)
  unfolding handle_event notify handle_close transport_started handshake
  handle_event-Accounted (requests method params) n s h = request-Accounted method params n s h
  handle_event-Accounted (notifies method params) n s h = ground (arith, h)
  handle_event-Accounted (receives message) n s h = message-Accounted message n s h
  handle_event-Accounted (times_out m) n s h = timeout-Accounted m n s h
  handle_event-Accounted (send_ends m) n s h = h
  handle_event-Accounted (send_fails m) n s h = failure-Accounted m n s h
  handle_event-Accounted closes n s h = handle_close-Accounted n s h
  handle_event-Accounted connects n s h = h
  handle_event-Accounted disconnects n s h = h
  handle_event-Accounted (starts params) n s h =
      request-Accounted "initialize" params n (record s { is_connected = true }) h
  handle_event-Accounted (shakes_hands result) n s h = ground (arith, h)

  -- Whatever happens, a request that was made is settled or its timer runs.
  pub run_events-Accounted :
      (events : List ClientEvent) (n : ℕ) (s : Client)
      → Accounted n s
      → Accounted n (run_events platform events s)
  unfolding run_events
  run_events-Accounted [] n s h = h
  run_events-Accounted (event ∷ events) n s h =
      run_events-Accounted events n (handle_event platform event s)
        (handle_event-Accounted event n s h)

  timer_settles :
      (n : ℕ) (s : Client)
      → n < s.issued
      → Accounted n s
      → is_settled n (handle_timeout n s).settled ≡ true
  unfolding handle_timeout
  timer_settles n s made h = elim (Option-cases (find_number n s.timers)) [
    | inl stopped ↦
        rw (handle_timeout, stopped) (ground (arith, h, made, has_number-find n s.timers, stopped))
    | inr (call, live) ↦
        rw (handle_timeout, live)
          (ground (
            arith,
            is_settled-settle_promise call.number n (timed_out call.method) s.settled,
            number-find n s.timers call live,
          ))
  ]

  -- Whatever happened since it was made: once the time of a request is over, it is settled.
  pub handle_timeout_settles :
      (events : List ClientEvent) (n : ℕ)
      → n < (run_events platform events new_client).issued
      → is_settled n (handle_timeout n (run_events platform events new_client)).settled ≡ true
  handle_timeout_settles events n made =
      timer_settles n (run_events platform events new_client) made
        (run_events-Accounted events n new_client (new_client-Accounted n))
