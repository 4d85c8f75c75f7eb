-- ===== src/Shared/SafeFetch.antt =====
-- `safeFetchText` of packages/shared/src/security/safeFetch.ts: its options, and the request that it
-- sends on each hop. `label` only goes into messages, which are left out.
pub mod Response
pub mod Redirect
pub mod Loop
pub mod Hops
pub mod Errors
pub mod Start
pub mod Steps
pub mod Bounds
pub mod Targets
pub mod Credentials
pub mod Bodies
mod Examples
use Prim.Native.String.{◌++◌ as ◌<>◌}
use mcp_suite.Common.{
  JsNumber, whole, other, ℕ, zero, suc, String, Bool, true, false, not, ◌&&◌, ◌||◌, Option, none,
  some, List, [], ◌∷◌, ◌++◌, length, ltb, if◌then◌else◌, or_else, any, ends_with, contains, keep_if,
  ◌==◌,
}
use mcp_suite.Effect.{Result, ok, err}
use mcp_suite.Shared.Url.{Url, UrlPlatform}
use mcp_suite.Shared.UrlPolicy.{DnsAddress, UrlPolicyOptions, Resolution, PolicyError}

pub data Body : Type 0 where
  text : String → Body
  bytes : List ℕ → Body

pub record Header : Type 0 where
  pub name : String
  pub value : String

-- What is absent is `none`; `lookup` is `none` for a host where the resolver throws.
pub record SafeFetchOptions : Type 0 where
  pub policy : UrlPolicyOptions
  pub lookup : String → Option (List String)
  pub allowed_content_types : Option (List String)
  pub body : Option Body
  pub headers : Option (List Header)
  pub max_redirects : Option JsNumber
  pub max_request_bytes : Option JsNumber
  pub max_response_bytes : Option JsNumber
  pub timeout_ms : Option JsNumber
  pub method : Option String

-- Each error by its message. `foreign` is an error of another class, and `out_of_fuel` is no error of
-- the source.
pub data FetchError : Type 0 where
  policy_error : PolicyError → FetchError
  not_positive not_non_negative request_too_large too_many_redirects no_location : FetchError
  body_not_forwarded content_type_not_allowed response_too_large timed_out : FetchError
  no_addresses request_failed foreign out_of_fuel : FetchError

pub record ResolvedOptions : Type 0 where
  pub allowed_content_types : Option (List String)
  pub max_redirects : ℕ
  pub max_request_bytes : ℕ
  pub max_response_bytes : ℕ
  pub timeout_ms : ℕ
  pub policy : UrlPolicyOptions
  pub lookup : String → Option (List String)

pub record RequestState : Type 0 where
  pub body : Option Body
  pub headers : List Header
  pub method : String

abbrev pub and_then {ℓ} :
    {A B : Type ℓ} → Result FetchError A → (A → Result FetchError B) → Result FetchError B
and_then (ok a) f = f a
and_then (err e) f = err e

abbrev pub assert_positive_integer : JsNumber → Result FetchError ℕ
assert_positive_integer (whole zero) = err not_positive
assert_positive_integer (whole (suc n)) = ok (suc n)
assert_positive_integer other = err not_positive

abbrev pub assert_non_negative_integer : JsNumber → Result FetchError ℕ
assert_non_negative_integer (whole n) = ok n
assert_non_negative_integer other = err not_non_negative

unfoldable pub resolve_safe_fetch_options : SafeFetchOptions → Result FetchError ResolvedOptions
resolve_safe_fetch_options options =
    and_then (assert_non_negative_integer (or_else options.max_redirects (whole 3))) (λ redirects.
      and_then (assert_positive_integer (or_else options.max_request_bytes (whole 1000000)))
        (λ request.
          and_then (assert_positive_integer (or_else options.max_response_bytes (whole 1000000)))
            (λ response.
              and_then (assert_positive_integer (or_else options.timeout_ms (whole 10000)))
                (λ timeout. ok (record {
                  allowed_content_types = options.allowed_content_types;
                  max_redirects = redirects;
                  max_request_bytes = request;
                  max_response_bytes = response;
                  timeout_ms = timeout;
                  policy = options.policy;
                  lookup = options.lookup;
                })))))

-- The platform's texts: `exceeds s n` is `Number(s) > n`, `decode` is `Buffer.toString("utf8")`, and
-- `utf8_length` is `Buffer.byteLength`.
pub record FetchPlatform : Type 0 where
  pub urls : UrlPlatform
  pub to_upper_case : String → String
  pub utf8_length : String → ℕ
  pub decode : List ℕ → String
  pub exceeds : String → ℕ → Bool

-- The words of `CROSS_ORIGIN_SENSITIVE_HEADER_SUFFIX`, alone or behind a dash or an underscore.
abbrev pub has_secret_suffix : String → Bool
has_secret_suffix name =
    any (λ word. name == word || ends_with ("-" <> word) name || ends_with ("_" <> word) name)
      ("credential" ∷ "credentials" ∷ "password" ∷ "secret" ∷ "token" ∷ [])

abbrev pub sensitive_headers : List String
sensitive_headers =
    "api-key" ∷ "authorization" ∷ "cookie" ∷ "proxy-authorization" ∷ "x-api-key" ∷ []

abbrev pub entity_headers : List String
entity_headers = "content-length" ∷ "content-type" ∷ "transfer-encoding" ∷ []

module _ (platform : FetchPlatform) where
  abbrev pub byte_length : Body → ℕ
  byte_length (text s) = platform.utf8_length s
  byte_length (bytes bs) = length bs

  abbrev pub is_host : Header → Bool
  is_host header = platform.urls.to_lower_case header.name == "host"

  abbrev pub is_entity : Header → Bool
  is_entity header = contains entity_headers (platform.urls.to_lower_case header.name)

  abbrev pub is_sensitive : Header → Bool
  is_sensitive header =
      contains sensitive_headers (platform.urls.to_lower_case header.name)
      || has_secret_suffix (platform.urls.to_lower_case header.name)

  unfoldable pub without_host_header : List Header → List Header
  without_host_header headers = keep_if (λ header. not (is_host header)) headers

  unfoldable pub without_entity_headers : List Header → List Header
  without_entity_headers headers = keep_if (λ header. not (is_entity header)) headers

  unfoldable pub without_cross_origin_credentials : List Header → List Header
  without_cross_origin_credentials headers = keep_if (λ header. not (is_sensitive header)) headers

  abbrev pub is_too_large : Option Body → ℕ → Bool
  is_too_large none limit = false
  is_too_large (some body) limit = ltb limit (byte_length body)

  unfoldable pub create_request_state :
      SafeFetchOptions → ResolvedOptions → Result FetchError RequestState
  create_request_state options resolved =
      if is_too_large options.body resolved.max_request_bytes
      then err request_too_large
      else ok (record {
        body = options.body;
        headers = without_host_header (or_else options.headers []);
        method = platform.to_upper_case (or_else options.method "GET");
      })
