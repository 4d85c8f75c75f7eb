-- ===== src/Shared/Client/Events.antt =====
-- The methods and callbacks of `MCPClient` of packages/shared/src/client/MCPClient.ts, as events.
use mcp_suite.Common.{
  ℕ, suc, String, Bool, true, false, not, ◌&&◌, Option, none, some, List, [], ◌∷◌, ◌++◌,
  if◌then◌else◌, ◌==◌,
}
use mcp_suite.Effect.{Result, ok, err}
use mcp_suite.Json.{Json, null, bool, num, str, arr, obj, end}
use mcp_suite.Shared.JsonRpc.{
  member, is_json_rpc_response, is_json_rpc_notification, is_supported_protocol_version,
}
use mcp_suite.Shared.Client.{
  PendingRequest, Settlement, fulfilled, protocol_error, timed_out, transport_closed, send_failed,
  request_message, disconnected, notification, ClientError, not_connected, unsupported_version,
  InitializeResult, Client, ClientPlatform, without_number, without_id, find_pending, find_number,
  settle_promise, set_pending, notify,
}

-- A request leaves the map with its timer, and its promise is settled.
abbrev pub end_request : PendingRequest → Settlement → Client → Client
end_request call settlement s = record s {
  pending = without_id call.id s.pending;
  timers = without_number call.number s.timers;
  settled = settle_promise call.number settlement s.settled;
}

-- `pendingRequests.get(message.id)`: the ids of the map are texts.
abbrev pub text_of : Option Json → Option String
text_of (some (str id)) = some id
text_of _ = none

abbrev pub waiting_for : Json → Client → Option PendingRequest
waiting_for message s = elim (text_of (member "id" message)) [
  | none ↦ none
  | some id ↦ find_pending id s.pending
]

-- The callback of the timer of a request.
unfoldable pub handle_timeout : ℕ → Client → Client
handle_timeout n s = elim (find_number n s.timers) [
  | none ↦ s
  | some call ↦ end_request call (timed_out call.method) s
]

abbrev pub landed : ℕ → Client → Client
landed n s = record s { in_flight = without_number n s.in_flight }

-- The `catch` of `transport.send`.
unfoldable pub handle_send_failure : ℕ → Client → Client
handle_send_failure n s = elim (find_number n s.in_flight) [
  | none ↦ s
  | some call ↦ end_request call send_failed (landed n s)
]

-- The loop of the `close` listener.
unfoldable pub reject_all : List PendingRequest → Client → Client
reject_all [] s = s
reject_all (call ∷ calls) s = reject_all calls (record s {
  timers = without_number call.number s.timers;
  settled = settle_promise call.number transport_closed s.settled;
})

abbrev pub note_close : Client → Client
note_close s = record s {
  is_connected = false;
  emitted = if s.manual_disconnect then s.emitted else s.emitted ++ disconnected ∷ [];
}

unfoldable pub handle_close : Client → Client
handle_close s = record (reject_all s.pending (note_close s)) { pending = [] }

-- `connect` up to the start of the transport.
abbrev pub begin_connect : Client → Client
begin_connect s = record s { manual_disconnect = false }

-- `disconnect` without the `close` event of the transport, which is an event of its own.
abbrev pub disconnect : Client → Client
disconnect s = record s { manual_disconnect = true; is_connected = false }

-- The rest of `connect`.
unfoldable pub handshake : InitializeResult → Client → Result {0, 0} ClientError (Unit {0}) × Client
handshake result s =
    if not (is_supported_protocol_version result.protocol_version)
    then (err unsupported_version, disconnect s)
    else notify "notifications/initialized" (obj end)
        (record s { active_protocol_version = result.protocol_version; server = some result })

pub data ClientEvent : Type 0 where
  requests : String → Json → ClientEvent
  notifies : String → Json → ClientEvent
  receives : Json → ClientEvent
  times_out send_ends send_fails : ℕ → ClientEvent
  closes connects disconnects : ClientEvent
  starts : Json → ClientEvent
  shakes_hands : InitializeResult → ClientEvent

module _ (platform : ClientPlatform) where
  abbrev pub start_request : String → Json → Client → Client
  start_request method params s =
      let call : PendingRequest = record {
        number = s.issued;
        id = platform.uuid s.issued;
        method = method;
      } in
      record s {
        issued = suc s.issued;
        timers = s.timers ++ call ∷ [];
        pending = set_pending call s.pending;
        in_flight = s.in_flight ++ call ∷ [];
        sent = s.sent ++ request_message call params ∷ [];
      }

  unfoldable pub send_request : String → Json → Client → Result ClientError ℕ × Client
  send_request method params s =
      if not s.is_connected && not (method == "initialize")
      then (err not_connected, s)
      else (ok s.issued, start_request method params s)

  abbrev pub is_truthy : Json → Bool
  is_truthy null = false
  is_truthy (bool b) = b
  is_truthy (num n) = not (platform.is_zero n)
  is_truthy (str s) = not (s == "")
  is_truthy (arr xs) = true
  is_truthy (obj fields) = true

  abbrev pub settlement_of : Json → Settlement
  settlement_of message = elim (member "error" message) [
    | none ↦ fulfilled (member "result" message)
    | some e ↦ if is_truthy e then protocol_error e else fulfilled (member "result" message)
  ]

  unfoldable pub handle_message : Json → Client → Client
  handle_message message s =
      if is_json_rpc_response message
      then elim (waiting_for message s) [
        | none ↦ s
        | some call ↦ end_request call (settlement_of message) s
      ]
      else if is_json_rpc_notification message
      then elim (member "method" message) [
        | none ↦ s
        | some method ↦ record s {
          emitted = s.emitted ++ notification method (member "params" message) ∷ [];
        }
      ]
      else s

  -- `connect` once the transport is open, up to the result of its request.
  unfoldable pub transport_started : Json → Client → Result ClientError ℕ × Client
  transport_started params s = send_request "initialize" params (record s { is_connected = true })

  unfoldable pub handle_event : ClientEvent → Client → Client
  handle_event (requests method params) s = (send_request method params s).1
  handle_event (notifies method params) s = (notify method params s).1
  handle_event (receives message) s = handle_message message s
  handle_event (times_out n) s = handle_timeout n s
  handle_event (send_ends n) s = landed n s
  handle_event (send_fails n) s = handle_send_failure n s
  handle_event closes s = handle_close s
  handle_event connects s = begin_connect s
  handle_event disconnects s = disconnect s
  handle_event (starts params) s = (transport_started params s).1
  handle_event (shakes_hands result) s = (handshake result s).1

  unfoldable pub run_events : List ClientEvent → Client → Client
  run_events [] s = s
  run_events (event ∷ events) s = run_events events (handle_event event s)
