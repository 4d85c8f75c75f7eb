-- ===== src/Shared/SafeFetch/Examples.antt =====
-- A network with one redirect to another origin, on which the theorems about
-- packages/shared/src/security/safeFetch.ts are applied.
use mcp_suite.Common.{
  whole, ◌≢◌, zero, map, sym, ◌∙◌, or_else, before_char, without_last, trim, without_prefix,
  utf16_length, ◌≤◌, ◌≡◌, refl, ap, true, false, none, some, List, [], ◌∷◌, All, length,
  if◌then◌else◌, ◌==◌,
}
use mcp_suite.Effect.{ok, err, ◌>>=◌}
use mcp_suite.Shared.UrlPolicy.Examples
use mcp_suite.Shared.UrlPolicy.Subnets.{blocks_ipv4, blocks_ipv6}
use mcp_suite.Shared.UrlPolicy.{
  resolve_public_http_url, resolve_parsed, check_url, normalize_hostname, addresses_of,
  validate_all, validate_address,
}
use mcp_suite.Shared.SafeFetch.Redirect.{
  apply_redirect_request_policy, follow_redirect, go_to, leave_origin,
}
use mcp_suite.Shared.SafeFetch.{
  Header, SafeFetchOptions, ResolvedOptions, FetchPlatform, resolve_safe_fetch_options, out_of_fuel,
  create_request_state, without_cross_origin_credentials, without_entity_headers,
  without_host_header,
}
use mcp_suite.Shared.SafeFetch.Response.{
  Response, done, chunk, assert_allowed_content_type, read_chunks, read_limited_response_body,
}
use mcp_suite.Shared.SafeFetch.Loop.{
  Network, SafeFetchResult, safe_fetch_text, run_hops, after_send, attempt, execute_request_hop,
  complete_response, follow, handle_response,
}
use mcp_suite.Shared.SafeFetch.Hops.{calls}
use mcp_suite.Shared.SafeFetch.Bounds.{safe_fetch_text_ends, safe_fetch_text-calls}
use mcp_suite.Shared.SafeFetch.Targets.{Pinned, safe_fetch_text-Pinned}
use mcp_suite.Shared.SafeFetch.Credentials.{Guarded, KeepsOrigins, safe_fetch_text-Guarded}
use mcp_suite.Shared.SafeFetch.Bodies.{Bounded, safe_fetch_text-Bounded}

abbrev platform : FetchPlatform
platform = record {
  urls = Examples.platform;
  to_upper_case = λ s. s;
  utf8_length = λ s. 0;
  decode = λ read. "text";
  exceeds = λ s n. false;
}

abbrev moved : Response
moved = record {
  status = 302;
  status_text = "Found";
  is_success = false;
  header = λ name. if name == "location" then some "far" else none;
  body = some done;
}

abbrev answered : Response
answered = record {
  status = 200;
  status_text = "OK";
  is_success = true;
  header = λ name. none;
  body = some (chunk (1 ∷ 2 ∷ []) done);
}

-- The first call is redirected, the second one is answered.
abbrev network : Network
network = record {
  fetch = λ n call. elim n [ zero ↦ some moved | _ ↦ some answered ];
  is_aborted = λ n. false;
}

abbrev headers : List Header
headers =
    record { name = "authorization"; value = "secret" }
    ∷ record { name = "accept"; value = "*/*" }
    ∷ []

abbrev options : SafeFetchOptions
options = record {
  policy = Examples.options;
  lookup = Examples.lookup;
  allowed_content_types = none;
  body = none;
  headers = some headers;
  max_redirects = some (whole 1);
  max_request_bytes = none;
  max_response_bytes = some (whole 2);
  timeout_ms = none;
  method = none;
}

abbrev resolved : ResolvedOptions
resolved = record {
  allowed_content_types = none;
  max_redirects = 1;
  max_request_bytes = 1000000;
  max_response_bytes = 2;
  timeout_ms = 10000;
  policy = Examples.options;
  lookup = Examples.lookup;
}

abbrev result : SafeFetchResult
result = record {
  body_text = "text";
  final_url = Examples.url_of "far";
  header = answered.header;
  is_success = true;
  status = 200;
  status_text = "OK";
}

resolves : resolve_safe_fetch_options options ≡ ok resolved
unfolding resolve_safe_fetch_options
resolves = refl

fetches : (safe_fetch_text platform network options "near").0 ≡ ok result
unfolding safe_fetch_text resolve_safe_fetch_options create_request_state resolve_public_http_url
    resolve_parsed check_url normalize_hostname before_char without_last trim addresses_of
    validate_all validate_address blocks_ipv4 blocks_ipv6 without_prefix utf16_length run_hops ◌>>=◌
    after_send attempt execute_request_hop complete_response follow handle_response
    apply_redirect_request_policy follow_redirect go_to leave_origin assert_allowed_content_type
    read_chunks read_limited_response_body without_cross_origin_credentials without_entity_headers
    without_host_header
fetches = refl

-- The second call has lost the authorization.
sends :
    map
      (λ call. length call.request.headers)
      (calls (safe_fetch_text platform network options "near").1)
    ≡ 2 ∷ 1 ∷ []
unfolding safe_fetch_text resolve_safe_fetch_options create_request_state resolve_public_http_url
    resolve_parsed check_url normalize_hostname before_char without_last trim addresses_of
    validate_all validate_address blocks_ipv4 blocks_ipv6 without_prefix utf16_length run_hops ◌>>=◌
    after_send attempt execute_request_hop complete_response follow handle_response
    apply_redirect_request_policy follow_redirect go_to leave_origin assert_allowed_content_type
    read_chunks read_limited_response_body without_cross_origin_credentials without_entity_headers
    without_host_header
sends = refl

keeps : KeepsOrigins platform
unfolding KeepsOrigins
keeps location base url again located parsed =
    sym (ap (λ o. (or_else o url).origin) parsed)
    ∙ sym (ap (λ o. (or_else o url).text) located)
    ∙ ap (λ o. (or_else o url).origin) located

safe_fetch_text-calls_example :
    length (calls (safe_fetch_text platform network options "near").1) ≤ 2
safe_fetch_text-calls_example =
    safe_fetch_text-calls platform network options "near" resolved resolves

safe_fetch_text-Pinned_example :
    All
      (λ call. Pinned platform resolved call.target)
      (calls (safe_fetch_text platform network options "near").1)
safe_fetch_text-Pinned_example =
    safe_fetch_text-Pinned platform network options "near" resolved resolves

safe_fetch_text-Guarded_example :
    All
      (λ call. Guarded platform "near" call.target call.request)
      (calls (safe_fetch_text platform network options "near").1)
safe_fetch_text-Guarded_example =
    safe_fetch_text-Guarded platform network options "near" (Examples.url_of "near") keeps refl

safe_fetch_text-Bounded_example : Bounded platform 2 "text"
safe_fetch_text-Bounded_example =
    safe_fetch_text-Bounded platform network options "near" resolved result resolves fetches

safe_fetch_text_ends_example : (safe_fetch_text platform network options "near").0 ≢ err out_of_fuel
safe_fetch_text_ends_example = safe_fetch_text_ends platform network options "near"
