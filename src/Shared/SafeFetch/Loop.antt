-- ===== src/Shared/SafeFetch/Loop.antt =====
-- The hops of `safeFetchText` of packages/shared/src/security/safeFetch.ts, and the loop over them.
use mcp_suite.Common.{ℕ, zero, suc, String, Bool, true, false, Option, List, [], ◌∷◌, if◌then◌else◌}
use mcp_suite.Effect.{Result, ok, err, pure, raise, lift, gets, require_some, ◌>>=◌, ◌>>◌}
use mcp_suite.Shared.Url.{Url}
use mcp_suite.Shared.UrlPolicy.{Resolution}
use mcp_suite.Shared.SafeFetch.{
  FetchError, RequestState, FetchPlatform, ResolvedOptions, SafeFetchOptions, foreign,
  request_failed, out_of_fuel, no_addresses, timed_out, resolve_safe_fetch_options,
  create_request_state, and_then,
}
use mcp_suite.Shared.SafeFetch.Response.{
  Response, Fetching, FetchState, Event, Sent, sent, emit, is_redirect, assert_allowed_content_type,
  read_limited_response_body,
}
use mcp_suite.Shared.SafeFetch.Redirect.{follow_redirect, resolve_fetch_target}

pub record SafeFetchResult : Type 0 where
  pub body_text : String
  pub final_url : Url
  pub header : String → Option String
  pub is_success : Bool
  pub status : ℕ
  pub status_text : String

pub data HopResult : Type 0 where
  complete : SafeFetchResult → HopResult
  redirect : Resolution → HopResult

-- The network, by the number of the hop: what `fetch` returns, `none` where it throws, and whether the timer had
-- aborted the signal when an error reaches the `catch`.
pub record Network : Type 0 where
  pub fetch : ℕ → Sent → Option Response
  pub is_aborted : ℕ → Bool

abbrev pub normalize_fetch_failure : Bool → FetchError → FetchError
normalize_fetch_failure true e = timed_out
normalize_fetch_failure false foreign = request_failed
normalize_fetch_failure false e = e

-- `catch` around the body of a hop.
abbrev pub with_failure {ℓ} : {A : Type ℓ} → Bool → Result FetchError A → Result FetchError A
with_failure is_aborted (ok a) = ok a
with_failure is_aborted (err e) = err (normalize_fetch_failure is_aborted e)

-- `selectPinnedAddresses`, and the request that carries them.
abbrev pub pinned_request : Resolution → RequestState → Result FetchError Sent
pinned_request target request = elim target.addresses [
  | [] ↦ err no_addresses
  | a ∷ rest ↦ ok (record { target = target; request = request })
]

abbrev pub continue_with :
    (Resolution → Fetching SafeFetchResult) → HopResult → Fetching SafeFetchResult
continue_with go (complete result) = pure result
continue_with go (redirect next) = go next

module _ (platform : FetchPlatform) (network : Network) (options : ResolvedOptions) where
  unfoldable pub complete_response : Response → Resolution → Fetching HopResult
  complete_response response target = do
    assert_allowed_content_type platform response options.allowed_content_types
    body_text ← read_limited_response_body platform response options.max_response_bytes
    pure (
        complete (record {
          body_text = body_text;
          final_url = target.url;
          header = response.header;
          is_success = response.is_success;
          status = response.status;
          status_text = response.status_text;
        }))

  unfoldable pub follow : Response → Resolution → ℕ → Fetching HopResult
  follow response target redirect_count = do
    next ← follow_redirect platform response target options redirect_count
    pure (redirect next)

  unfoldable pub handle_response : Response → Resolution → ℕ → Fetching HopResult
  handle_response response target redirect_count =
      if is_redirect response.status
      then follow response target redirect_count
      else complete_response response target

  -- The rest of a hop, once its request is built.
  unfoldable pub after_send : Sent → Resolution → ℕ → Fetching HopResult
  after_send call target redirect_count = do
    response ← require_some (network.fetch redirect_count call) foreign
    handle_response response target redirect_count

  -- The body of the `try` of `executeRequestHop`.
  unfoldable pub attempt : Resolution → ℕ → Fetching HopResult
  attempt target redirect_count = do
    request ← gets (λ s. s.request)
    call ← lift (pinned_request target request)
    emit (sent call)
    after_send call target redirect_count

  unfoldable pub execute_request_hop : Resolution → ℕ → Fetching HopResult
  execute_request_hop target redirect_count s =
      let (r, t) = attempt target redirect_count s in
      (with_failure (network.is_aborted redirect_count) r, t)

  -- The `for` loop.
  unfoldable pub run_hops : ℕ → Resolution → ℕ → Fetching SafeFetchResult
  run_hops zero target redirect_count = raise out_of_fuel
  run_hops (suc fuel) target redirect_count = do
    hop ← execute_request_hop target redirect_count
    continue_with (λ next. run_hops fuel next (suc redirect_count)) hop

-- What the caller gets, and what the world saw.
abbrev pub reported :
    Result FetchError SafeFetchResult × FetchState → Result FetchError SafeFetchResult × List Event
reported out = (out.0, out.1.events)

module _ (platform : FetchPlatform) (network : Network) where
  -- One hop more than the check in `followRedirect` lets run, so that the check and not the fuel ends the loop.
  abbrev pub hops : ResolvedOptions → Resolution → Fetching SafeFetchResult
  hops options target = run_hops platform network options (suc (suc options.max_redirects)) target 0

  abbrev pub start_hops :
      ResolvedOptions
      → Result FetchError (RequestState × Resolution)
      → Result FetchError SafeFetchResult × List Event
  start_hops options (err e) = (err e, [])
  start_hops options (ok (request, target)) =
      reported (hops options target (record { request = request; events = [] }))

  abbrev pub first_hop :
      SafeFetchOptions → String → ResolvedOptions → Result FetchError (RequestState × Resolution)
  first_hop options input resolved =
      and_then (create_request_state platform options resolved) (λ request.
        and_then (resolve_fetch_target platform resolved input) (λ target. ok (request, target)))

  unfoldable pub safe_fetch_text :
      SafeFetchOptions → String → Result FetchError SafeFetchResult × List Event
  safe_fetch_text options input = elim (resolve_safe_fetch_options options) [
    | err e ↦ (err e, [])
    | ok resolved ↦ start_hops resolved (first_hop options input resolved)
  ]
