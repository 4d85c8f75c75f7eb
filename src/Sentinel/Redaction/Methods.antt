-- ===== src/Sentinel/Redaction/Methods.antt =====
-- The methods of `AuditRedactor` of packages/sentinel/src/audit/AuditRedactor.ts.
use Prim.Native.String.{◌++◌ as ◌<>◌}
use mcp_suite.Common.{
  ℕ, zero, suc, ◌/◌, String, Bool, true, false, not, Option, none, some, List, [], ◌∷◌, map, leb,
  if◌then◌else◌,
}
use mcp_suite.Effect.{Result, ok, err}
use mcp_suite.Json.{Json, Items, Fields, null, bool, num, str, arr, obj, nil, cons, end, field}
use mcp_suite.Sentinel.Request.{ToolCallRequest}
use mcp_suite.Sentinel.Redaction.{
  AuditRedactor, RedactionError, too_small, out_of_fuel, SanitizedAuditRequest, authorization,
  bearer, json_web_token, virtual_key, github_token, api_key, named_token, bare_secret,
  client_secret, RedactionPlatform, is_sensitive_key, truncate_utf8, fingerprint_source,
}

module _ (platform : RedactionPlatform) (redactor : AuditRedactor) where
  abbrev pub secret_marker : Json → String
  secret_marker value =
      if not redactor.fingerprint_secrets
      then "[REDACTED]"
      else "[REDACTED sha256:"
        <> platform.first_twelve (platform.sha256 (fingerprint_source platform value))
        <> "]"

  -- Where the pattern has no group the secret is the match.
  abbrev pub whole_match : List String → String
  whole_match (secret ∷ groups) = secret_marker (str secret)
  whole_match [] = ""

  abbrev pub headed : String → List String → String
  headed head (match ∷ secret ∷ groups) = head <> secret_marker (str secret)
  headed head _ = ""

  abbrev pub assigned : List String → String
  assigned (match ∷ key ∷ separator ∷ secret ∷ groups) =
      key <> separator <> secret_marker (str secret)
  assigned _ = ""

  unfoldable pub sanitize_text : String → String
  sanitize_text value = platform.replace client_secret assigned (
      platform.replace bare_secret assigned (
        platform.replace named_token assigned (
          platform.replace api_key assigned (
            platform.replace github_token whole_match (
              platform.replace virtual_key whole_match (
                platform.replace json_web_token whole_match (
                  platform.replace bearer (headed "Bearer ") (
                    platform.replace authorization (headed "Authorization: ")
                      (platform.redact_pii value)))))))))

  -- `sanitizeValue`, by the depth that is left.
  unfoldable mutual
    pub sanitize_value : ℕ → Json → Json
    sanitize_value left null = null
    sanitize_value left (bool b) = bool b
    sanitize_value left (num n) = num n
    sanitize_value left (str s) = str (sanitize_text s)
    sanitize_value zero (arr items) = str "[MAX_DEPTH]"
    sanitize_value (suc left) (arr items) = arr (sanitize_items left items)
    sanitize_value zero (obj fields) = str "[MAX_DEPTH]"
    sanitize_value (suc left) (obj fields) = obj (sanitize_fields left fields)

    pub sanitize_items : ℕ → Items → Items
    sanitize_items left nil = nil
    sanitize_items left (cons item items) =
        cons (sanitize_value left item) (sanitize_items left items)

    pub sanitize_fields : ℕ → Fields → Fields
    sanitize_fields left end = end
    sanitize_fields left (field key nested fields) =
        field key
          (if is_sensitive_key platform key
            then str (secret_marker nested)
            else sanitize_value left nested)
          (sanitize_fields left fields)

  abbrev pub object_or_invalid : Json → Fields
  object_or_invalid (obj fields) = fields
  object_or_invalid _ = field "_audit" (str "[INVALID_INPUT]") end

  unfoldable pub sanitize_object : Fields → Fields
  sanitize_object input = object_or_invalid (sanitize_value redactor.max_depth (obj input))

  abbrev pub sanitize_header : String × String → String × String
  sanitize_header (name, value) = (
    name,
    if is_sensitive_key platform name then secret_marker (str value) else sanitize_text value,
  )

  unfoldable pub sanitized : ToolCallRequest → ToolCallRequest
  sanitized request = record {
    tool = sanitize_text request.tool;
    headers = map sanitize_header request.headers;
    input = sanitize_object request.input;
  }

  abbrev pub text_fields : List (String × String) → Fields
  text_fields [] = end
  text_fields ((name, value) ∷ rest) = field name (str value) (text_fields rest)

  -- `JSON.stringify` of the object, whose members stand in this order.
  abbrev pub serialize : ToolCallRequest → String
  serialize request = platform.stringify (
      obj (
        field "tool" (str request.tool) (
          field "headers" (obj (text_fields request.headers))
            (field "input" (obj request.input) end))))

  abbrev pub fits : ToolCallRequest → Bool
  fits request = leb (platform.utf8_length (serialize request)) redactor.max_request_bytes

  abbrev pub audit_message : String
  audit_message =
      "[TRUNCATED] redacted request exceeded "
      <> platform.decimal redactor.max_request_bytes
      <> " UTF-8 bytes"

  unfoldable pub summary : String → ℕ → ToolCallRequest
  summary tool budget = record {
    tool = elim budget [ zero ↦ "" | suc b ↦ truncate_utf8 platform tool (suc b) ];
    headers = [];
    input = field "_audit" (str audit_message) end;
  }

  abbrev pub audited : ToolCallRequest → Bool → SanitizedAuditRequest
  audited request truncated = record {
    request = request;
    serialized = serialize request;
    truncated = truncated;
  }

  -- The `while` loop, which halves the budget.
  unfoldable pub summarize : ℕ → String → ℕ → Result RedactionError SanitizedAuditRequest
  summarize zero tool budget = err out_of_fuel
  summarize (suc fuel) tool budget =
      if fits (summary tool budget)
      then ok (audited (summary tool budget) true)
      else elim budget [ zero ↦ err too_small | suc b ↦ summarize fuel tool (suc b / 2) ]

  abbrev pub first_budget : ℕ
  first_budget = if leb 128 redactor.max_request_bytes then 128 else redactor.max_request_bytes

  -- What follows the redaction: the request as it is, or a summary of it.
  unfoldable pub limit_size : ToolCallRequest → Result RedactionError SanitizedAuditRequest
  limit_size request =
      if fits request
      then ok (audited request false)
      else summarize (suc first_budget) request.tool first_budget

  unfoldable pub sanitize_request : ToolCallRequest → Result RedactionError SanitizedAuditRequest
  sanitize_request request = limit_size (sanitized request)

  unfoldable pub sanitize_error : Option String → Option String
  sanitize_error none = none
  sanitize_error (some error) =
      some (truncate_utf8 platform (sanitize_text error) redactor.max_error_bytes)
