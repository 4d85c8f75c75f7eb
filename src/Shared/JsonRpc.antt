-- ===== src/Shared/JsonRpc.antt =====
-- The kinds of messages of packages/shared/src/protocol/jsonrpc.ts, and the versions of
-- packages/shared/src/protocol/version.ts.
use mcp_suite.Common.{
  String, Bool, false, not, ◌&&◌, ◌||◌, Option, none, some, List, [], ◌∷◌, contains, is_some,
  if◌then◌else◌, ◌==◌,
}
use mcp_suite.Json.{Json, str, obj, Fields, end, field}

-- `message[key]`, where the object has it.
unfoldable pub get_field : String → Fields → Option Json
get_field key end = none
get_field key (field k v rest) = if k == key then some v else get_field key rest

-- Objects with the fields of the tests: what is no object, or an array, has none of them.
abbrev pub member : String → Json → Option Json
member key (obj fields) = get_field key fields
member key _ = none

abbrev pub has_version : Json → Bool
has_version message = elim (member "jsonrpc" message) [
  | some (str version) ↦ version == "2.0"
  | _ ↦ false
]

abbrev pub has_member : String → Json → Bool
has_member key message = is_some (member key message)

abbrev pub is_json_rpc_request : Json → Bool
is_json_rpc_request message =
    has_version message && has_member "method" message && has_member "id" message

abbrev pub is_json_rpc_response : Json → Bool
is_json_rpc_response message =
    has_version message
    && has_member "id" message
    && (has_member "result" message || has_member "error" message)

abbrev pub is_json_rpc_notification : Json → Bool
is_json_rpc_notification message =
    has_version message && has_member "method" message && not (has_member "id" message)

abbrev pub latest_protocol_version : String
latest_protocol_version = "2025-11-25"

abbrev pub supported_protocol_versions : List String
supported_protocol_versions = latest_protocol_version ∷ "2025-11-05" ∷ []

abbrev pub is_supported_protocol_version : String → Bool
is_supported_protocol_version = contains supported_protocol_versions

abbrev pub negotiate_protocol_version : String → String
negotiate_protocol_version requested =
    if is_supported_protocol_version requested then requested else latest_protocol_version
