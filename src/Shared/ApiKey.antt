-- ===== src/Shared/ApiKey.antt =====
-- packages/shared/src/auth/ApiKeyMiddleware.ts: the key in a header, the principal that the validator
-- knows for it, and the scopes of that principal.
pub mod Authorization
mod Examples
use Prim.Native.String.{◌++◌ as ◌<>◌}
use mcp_suite.Common.{
  String, Bool, not, Option, none, some, List, [], ◌∷◌, any, if◌then◌else◌, or_else, is_empty,
  truthy, trim, without_prefix, ◌==◌,
}
use mcp_suite.Effect.{Result, ok, err}

pub record ApiKeyPrincipal : Type 0 where
  pub id : String
  pub scopes : Option (List String)

pub data HeaderValue : Type 0 where
  one : String → HeaderValue
  many : List String → HeaderValue

pub data ApiKeyError : Type 0 where
  missing_key invalid_key missing_scope : ApiKeyError

-- The constructor's options with their defaults filled in, the validator, and `toLowerCase`.
pub record ApiKeyMiddleware : Type 0 where
  pub header_name : String
  pub scheme : String
  pub validator : String → Option ApiKeyPrincipal
  pub to_lower_case : String → String

abbrev pub HeaderMap : Type 0
HeaderMap = String → Option HeaderValue

abbrev pub raw_header : ApiKeyMiddleware → HeaderMap → Option HeaderValue
raw_header m headers =
    let name = m.to_lower_case m.header_name in
    elim (headers name) [ some value ↦ some value | none ↦ headers (m.to_lower_case name) ]

abbrev pub header_value : Option HeaderValue → Option String
header_value none = none
header_value (some (one value)) = some value
header_value (some (many [])) = none
header_value (some (many (value ∷ rest))) = some value

abbrev pub token_of : Option String → Option String
token_of none = none
token_of (some rest) = truthy (some (trim rest))

unfoldable pub extract_key : ApiKeyMiddleware → HeaderMap → Option String
extract_key m headers = elim (truthy (header_value (raw_header m headers))) [
  | none ↦ none
  | some value ↦ token_of (without_prefix (m.scheme <> " ") value)
]

unfoldable pub authorize : ApiKeyMiddleware → HeaderMap → Result ApiKeyError ApiKeyPrincipal
authorize m headers = elim (extract_key m headers) [
  | none ↦ err missing_key
  | some token ↦ elim (m.validator token) [ none ↦ err invalid_key | some principal ↦ ok principal ]
]

abbrev pub has_scope : ApiKeyPrincipal → String → Bool
has_scope principal scope = any (λ s. s == scope) (or_else principal.scopes [])

unfoldable pub ensure_scope :
    ApiKeyMiddleware → HeaderMap → String → Result ApiKeyError ApiKeyPrincipal
ensure_scope m headers scope = elim (authorize m headers) [
  | err e ↦ err e
  | ok principal ↦ if not (has_scope principal scope) then err missing_scope else ok principal
]
