-- ===== src/Sentinel/Request.antt =====
-- `ToolCallRequest` of packages/sentinel/src/auth/KeyManager.ts.
use mcp_suite.Common.{String, List, [], ◌∷◌}
use mcp_suite.Json.{Json, Fields, end, field, str, obj}

pub record ToolCallRequest : Type 0 where
  pub tool : String
  pub input : Fields
  pub headers : List (String × String)

header_fields : List (String × String) → Fields
header_fields [] = end
header_fields ((name, value) ∷ rest) = field name (str value) (header_fields rest)

-- The request as the JSON object that `JSON.stringify` prints.
pub to_json : ToolCallRequest → Json
to_json r = obj (
    field "tool" (str r.tool)
      (field "input" (obj r.input) (field "headers" (obj (header_fields r.headers)) end)))
