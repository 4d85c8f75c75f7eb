-- ===== src/Shared/Client/Examples.antt =====
-- A client with two requests, on which the theorems about packages/shared/src/client/MCPClient.ts are applied.
use mcp_suite.Common.{
  ℕ, zero, suc, ◌<◌, String, ◌≡◌, refl, sym, ap, ◌∙◌, utf16_length, true, false, List, [], ◌∷◌,
  arith,
}
use mcp_suite.Json.{Json, null, str, obj, field, end}
use mcp_suite.Shared.JsonRpc.{get_field}
use mcp_suite.Shared.Client.{ClientPlatform, new_client, is_settled, set_pending, find_pending}
use mcp_suite.Shared.Client.Events.{
  ClientEvent, requests, starts, receives, connects, run_events, handle_close, handle_timeout,
  handle_event, transport_started, send_request, handle_message,
}
use mcp_suite.Shared.Client.Settling.{has_number, handle_timeout_settles}
use mcp_suite.Shared.Client.Matching.{Distinct}
use mcp_suite.Shared.Client.Timers.{run_events_quiet}
use mcp_suite.Shared.Client.Closing.{close_settles}

-- The id of a number is a run of strokes.
abbrev strokes : ℕ → String
strokes zero = ""
strokes (suc n) = String.◌∷◌ "i" (strokes n)

abbrev platform : ClientPlatform
platform = record { uuid = strokes; is_zero = λ n. false }

size : (n : ℕ) → utf16_length (strokes n) ≡ n
unfolding utf16_length
size zero = refl
size (suc n) = omega (arith, size n)

distinct : Distinct platform
unfolding Distinct
distinct m n h = sym (size m) ∙ ap utf16_length h ∙ size n

abbrev answer : Json
answer = obj (field "jsonrpc" (str "2.0") (field "id" (str "i") (field "result" null end)))

-- The client connects, asks for the tools, and gets the answer to that.
abbrev history : List ClientEvent
history = connects ∷ starts null ∷ requests "tools/list" null ∷ receives answer ∷ []

made : 0 < (run_events platform history new_client).issued
unfolding run_events handle_event handle_message get_field find_pending send_request
    transport_started set_pending
made = omega arith

handle_timeout_settles_example :
    is_settled 0 (handle_timeout 0 (run_events platform history new_client)).settled ≡ true
handle_timeout_settles_example = handle_timeout_settles platform history 0 made

close_settles_example :
    is_settled 0 (handle_close (run_events platform history new_client)).settled ≡ true
close_settles_example = close_settles platform distinct history 0 made

answered : is_settled 1 (run_events platform history new_client).settled ≡ true
unfolding run_events handle_event handle_message get_field find_pending send_request
    transport_started set_pending
answered = refl

run_events_quiet_example : has_number 1 (run_events platform history new_client).timers ≡ false
run_events_quiet_example = run_events_quiet platform history 1 answered
