-- ===== src/Sentinel/Redaction.antt =====
-- `AuditRedactor` of packages/sentinel/src/audit/AuditRedactor.ts, on requests that were read from JSON: what
-- JSON has no value for, such as a Date or a cycle, does not come up.
pub mod Methods
pub mod Limits
pub mod Secrecy
pub mod Examples
use Prim.Native.Char.{code}
use Prim.Native.String.{◌++◌ as ◌<>◌}
use mcp_suite.Common.{
  ℕ, zero, suc, ◌-◌, ◌/◌, String, Bool, true, false, not, ◌&&◌, ◌||◌, Option, none, some, List, [],
  ◌∷◌, map, leb, ltb, if◌then◌else◌, or_else, any, ends_with, contains, is_empty, JsNumber, whole,
  other,
}
use mcp_suite.Effect.{Result, ok, err}
use mcp_suite.Json.{Json, Items, Fields, null, bool, num, str, arr, obj, nil, cons, end, field}
use mcp_suite.Sentinel.Request.{ToolCallRequest}

-- What is absent is `none`.
pub record AuditRedactionOptions : Type 0 where
  pub fingerprint_secrets : Option Bool
  pub max_request_bytes : Option JsNumber
  pub max_error_bytes : Option JsNumber
  pub max_depth : Option JsNumber

pub record AuditRedactor : Type 0 where
  pub fingerprint_secrets : Bool
  pub max_request_bytes : ℕ
  pub max_error_bytes : ℕ
  pub max_depth : ℕ

pub data RedactionError : Type 0 where
  out_of_range too_small out_of_fuel : RedactionError

pub record SanitizedAuditRequest : Type 0 where
  pub request : ToolCallRequest
  pub serialized : String
  pub truncated : Bool

abbrev pub assert_integer_in_range : JsNumber → ℕ → ℕ → Result RedactionError ℕ
assert_integer_in_range (whole n) minimum maximum =
    if ltb n minimum || ltb maximum n then err out_of_range else ok n
assert_integer_in_range other minimum maximum = err out_of_range

abbrev and_then {ℓ} :
    {A B : Type ℓ}
    → Result RedactionError A
    → (A → Result RedactionError B)
    → Result RedactionError B
and_then (ok a) f = f a
and_then (err e) f = err e

-- The constructor, with its defaults and ranges.
unfoldable pub new_audit_redactor : AuditRedactionOptions → Result RedactionError AuditRedactor
new_audit_redactor options =
    and_then (assert_integer_in_range (or_else options.max_request_bytes (whole 65536)) 256 1048576)
      (λ request.
        and_then (assert_integer_in_range (or_else options.max_error_bytes (whole 4096)) 64 65536)
          (λ error.
            and_then (assert_integer_in_range (or_else options.max_depth (whole 20)) 1 100)
              (λ depth. ok (record {
                fingerprint_secrets = or_else options.fingerprint_secrets false;
                max_request_bytes = request;
                max_error_bytes = error;
                max_depth = depth;
              }))))

-- The regular expressions of `sanitizeText`, in the order in which they are applied; the last four are
-- FREE_TEXT_CREDENTIAL_PATTERNS.
pub data Pattern : Type 0 where
  authorization bearer json_web_token virtual_key github_token : Pattern
  api_key named_token bare_secret client_secret : Pattern

-- `replace p f s` is `s.replace(p, f)`, where `f` gets the match and its groups. `utf8_prefix n s` is the text
-- that the first `n` bytes of `s` decode to, and `decimal` prints a number.
pub record RedactionPlatform : Type 0 where
  pub redact_pii : String → String
  pub replace : Pattern → (List String → String) → String → String
  pub sha256 : String → String
  pub stringify : Json → String
  pub utf8_length : String → ℕ
  pub utf8_prefix : ℕ → String → String
  pub to_lower_case : String → String
  pub first_twelve : String → String
  pub decimal : ℕ → String

abbrev is_letter_or_digit : ℕ → Bool
is_letter_or_digit c = (leb 97 c && leb c 122) || (leb 48 c && leb c 57)

abbrev pub letters_and_digits : String → String
letters_and_digits String.[] = ""
letters_and_digits (String.◌∷◌ c s) =
    let rest = letters_and_digits s in
    if is_letter_or_digit (code c) then String.◌∷◌ c rest else rest

abbrev pub sensitive_key_names : List String
sensitive_key_names =
    "authorization" ∷ "proxyauthorization" ∷ "cookie" ∷ "setcookie" ∷ "apikey" ∷ "xapikey"
    ∷ "password" ∷ "passwd" ∷ "credential" ∷ "credentials" ∷ "privatekey" ∷ "sessionid"
    ∷ "clientsecret" ∷ []

abbrev pub secret_suffixes : List String
secret_suffixes = "token" ∷ "secret" ∷ "password" ∷ "passwd" ∷ "credential" ∷ "credentials" ∷ []

abbrev pub truncation_marker : String
truncation_marker = "\n[TRUNCATED]"

-- The `while` loop of `truncateUtf8`: 65533 is the replacement character.
abbrev pub without_replacements : String → String
without_replacements String.[] = ""
without_replacements (String.◌∷◌ c s) =
    let rest = without_replacements s in
    if is_empty rest && leb 65533 (code c) && leb (code c) 65533 then "" else String.◌∷◌ c rest

module _ (platform : RedactionPlatform) where
  abbrev pub normalize_name : String → String
  normalize_name key = letters_and_digits (platform.to_lower_case key)

  unfoldable pub is_sensitive_key : String → Bool
  is_sensitive_key key =
      contains sensitive_key_names (normalize_name key)
      || any (λ suffix. ends_with suffix (normalize_name key)) secret_suffixes

  unfoldable pub truncate_utf8 : String → ℕ → String
  truncate_utf8 value max_bytes =
      if leb (platform.utf8_length value) max_bytes
      then value
      else without_replacements
          (platform.utf8_prefix (max_bytes - platform.utf8_length truncation_marker) value)
        <> truncation_marker

  abbrev pub fingerprint_source : Json → String
  fingerprint_source (str s) = s
  fingerprint_source null = "null"
  fingerprint_source (num n) = "number:" <> n
  fingerprint_source (bool true) = "boolean:true"
  fingerprint_source (bool false) = "boolean:false"
  fingerprint_source (arr items) = platform.stringify (arr items)
  fingerprint_source (obj fields) = platform.stringify (obj fields)
