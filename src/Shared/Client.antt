-- ===== src/Shared/Client.antt =====
-- `MCPClient` of packages/shared/src/client/MCPClient.ts: the requests that wait for a response, and what
-- ends the wait. Each method runs to its end between two events; an await ends it.
pub mod Events
pub mod Settling
pub mod Timers
pub mod Matching
pub mod Closing
mod Examples
use mcp_suite.Common.{
  ℕ, suc, ◌+◌, String, Bool, true, false, not, ◌&&◌, ◌||◌, Option, none, some, List, [], ◌∷◌, ◌++◌,
  leb, keep_if, any, is_some, if◌then◌else◌, ◌==◌,
}
use mcp_suite.Effect.{Result, ok, err}
use mcp_suite.Json.{Json, null, bool, num, str, arr, obj, end}
use mcp_suite.Shared.JsonRpc.{
  member, is_json_rpc_response, is_json_rpc_notification, is_supported_protocol_version,
  latest_protocol_version,
}

-- A request: its number is that of its promise and of its timer.
pub record PendingRequest : Type 0 where
  pub number : ℕ
  pub id : String
  pub method : String

-- How a promise of a request ends. `result` is `none` where the response has no such member.
pub data Settlement : Type 0 where
  fulfilled : Option Json → Settlement
  protocol_error : Json → Settlement
  timed_out : String → Settlement
  transport_closed : Settlement
  send_failed : Settlement

pub record Settled : Type 0 where
  pub number : ℕ
  pub settlement : Settlement

pub data Outgoing : Type 0 where
  request_message : PendingRequest → Json → Outgoing
  notification_message : String → Json → Outgoing

pub data Emitted : Type 0 where
  disconnected : Emitted
  notification : Json → Option Json → Emitted

pub data ClientError : Type 0 where
  not_connected unsupported_version : ClientError

pub record InitializeResult : Type 0 where
  pub protocol_version : String
  pub capabilities : Json
  pub server_info : Json

-- `pending` is the Map, in insertion order; `timers` are those that run_events, and `in_flight` the sends that
-- have not ended. `issued` counts the requests.
pub record Client : Type 0 where
  pub pending : List PendingRequest
  pub timers : List PendingRequest
  pub in_flight : List PendingRequest
  pub settled : List Settled
  pub issued : ℕ
  pub is_connected : Bool
  pub manual_disconnect : Bool
  pub active_protocol_version : String
  pub server : Option InitializeResult
  pub sent : List Outgoing
  pub emitted : List Emitted

-- The fields as the constructor leaves them.
abbrev pub new_client : Client
new_client = record {
  pending = [];
  timers = [];
  in_flight = [];
  settled = [];
  issued = 0;
  is_connected = false;
  manual_disconnect = false;
  active_protocol_version = latest_protocol_version;
  server = none;
  sent = [];
  emitted = [];
}

-- `uuid n` is the id of request `n`; `is_zero` tells the number literals that are false.
pub record ClientPlatform : Type 0 where
  pub uuid : ℕ → String
  pub is_zero : String → Bool

abbrev pub same_number : ℕ → ℕ → Bool
same_number m n = leb m n && leb n m

abbrev pub without_number : ℕ → List PendingRequest → List PendingRequest
without_number n calls = keep_if (λ call. not (same_number call.number n)) calls

abbrev pub without_id : String → List PendingRequest → List PendingRequest
without_id id calls = keep_if (λ call. not (call.id == id)) calls

unfoldable pub find_pending : String → List PendingRequest → Option PendingRequest
find_pending id [] = none
find_pending id (call ∷ calls) = if call.id == id then some call else find_pending id calls

unfoldable pub find_number : ℕ → List PendingRequest → Option PendingRequest
find_number n [] = none
find_number n (call ∷ calls) = if same_number call.number n then some call else find_number n calls

abbrev pub is_settled : ℕ → List Settled → Bool
is_settled n settled = any (λ s. same_number s.number n) settled

-- `resolve` and `reject`: the first one counts.
abbrev pub settle_promise : ℕ → Settlement → List Settled → List Settled
settle_promise n settlement settled =
    if is_settled n settled
    then settled
    else settled ++ record { number = n; settlement = settlement } ∷ []

-- `Map.set`: an entry with the id is replaced where it stands.
unfoldable pub set_pending : PendingRequest → List PendingRequest → List PendingRequest
set_pending call [] = call ∷ []
set_pending call (c ∷ calls) = if c.id == call.id then call ∷ calls else c ∷ set_pending call calls

unfoldable pub notify : String → Json → Client → Result {0, 0} ClientError (Unit {0}) × Client
notify method params s =
    if not s.is_connected
    then (err not_connected, s)
    else (ok tt, record s { sent = s.sent ++ notification_message method params ∷ [] })
