-- ===== src/Shared/SafeFetch/Redirect.antt =====
-- How packages/shared/src/security/safeFetch.ts follows a redirect: what it keeps of the request, and
-- which target it goes to.
use mcp_suite.Common.{
  ℕ, String, Bool, not, ◌&&◌, ◌||◌, none, [], ◌∷◌, leb, if◌then◌else◌, any, truthy, ◌==◌, is_some,
}
use mcp_suite.Effect.{Result, ok, err, pure, raise, lift, gets, modify, require_some, ◌>>=◌, ◌>>◌}
use mcp_suite.Shared.UrlPolicy.{Resolution, UrlPolicyOptions, PolicyError, resolve_public_http_url}
use mcp_suite.Shared.SafeFetch.{
  FetchError, RequestState, FetchPlatform, ResolvedOptions, too_many_redirects, no_location,
  foreign, body_not_forwarded, no_addresses, policy_error, without_cross_origin_credentials,
  without_entity_headers,
}
use mcp_suite.Shared.SafeFetch.Response.{Response, Fetching, destroy_response_body}

abbrev pub preserves_method_and_body : ℕ → Bool
preserves_method_and_body status = any (λ n. leb n status && leb status n) (307 ∷ 308 ∷ [])

abbrev pub rewrites_to_get : ℕ → String → Bool
rewrites_to_get status method =
    (leb 303 status && leb status 303)
    || (any (λ n. leb n status && leb status n) (301 ∷ 302 ∷ []) && method == "POST")

-- The options that `resolveFetchTarget` hands on: addresses are always resolved.
abbrev pub fetch_policy : UrlPolicyOptions → UrlPolicyOptions
fetch_policy policy = record policy { resolve_dns = none }

abbrev pub with_addresses : Result PolicyError Resolution → Result FetchError Resolution
with_addresses (err e) = err (policy_error e)
with_addresses (ok target) = elim target.addresses [ [] ↦ err no_addresses | a ∷ rest ↦ ok target ]

abbrev pub set_request : (RequestState → RequestState) → Fetching Unit
set_request f = modify (λ s. record s { request = f s.request })

module _ (platform : FetchPlatform) where
  abbrev pub resolve_fetch_target : ResolvedOptions → String → Result FetchError Resolution
  resolve_fetch_target options input =
      with_addresses
        (resolve_public_http_url platform.urls (fetch_policy options.policy) options.lookup input)

  abbrev pub drop_credentials : RequestState → RequestState
  drop_credentials request = record request {
    headers = without_cross_origin_credentials platform request.headers;
  }

  abbrev pub as_get : RequestState → RequestState
  as_get request = record {
    body = none;
    headers = without_entity_headers platform request.headers;
    method = "GET";
  }

  abbrev pub cannot_forward : ℕ → RequestState → Bool
  cannot_forward status request = is_some request.body && preserves_method_and_body status

  -- The part for another origin.
  unfoldable pub leave_origin : ℕ → Fetching Unit
  leave_origin status = do
    set_request drop_credentials
    request ← gets (λ s. s.request)
    if cannot_forward status request then raise body_not_forwarded else pure tt

  abbrev pub rewrite_method : ℕ → RequestState → RequestState
  rewrite_method status request =
      if rewrites_to_get status request.method then as_get request else request

  unfoldable pub apply_redirect_request_policy : ℕ → Bool → Fetching Unit
  apply_redirect_request_policy status cross_origin = do
    if cross_origin then leave_origin status else pure tt
    set_request (rewrite_method status)

  -- The rest of `followRedirect`, once the location is known: `new URL` throws where it is no URL.
  unfoldable pub go_to : ℕ → Resolution → ResolvedOptions → String → Fetching Resolution
  go_to status current options location = do
    url ← require_some (platform.urls.resolve_url location current.url) foreign
    apply_redirect_request_policy status (not (url.origin == current.url.origin))
    lift (resolve_fetch_target options url.text)

  unfoldable pub follow_redirect : Response → Resolution → ResolvedOptions → ℕ → Fetching Resolution
  follow_redirect response current options redirect_count = do
    destroy_response_body response
    if leb options.max_redirects redirect_count then raise too_many_redirects else pure tt
    location ← require_some (truthy (response.header "location")) no_location
    go_to response.status current options location
