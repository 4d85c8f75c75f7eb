-- ===== src/Shared/SafeFetch/Start.antt =====
-- How `safeFetchText` of packages/shared/src/security/safeFetch.ts begins: it refuses its input, or enters
-- its loop with a request and a first target.
use mcp_suite.Common.{String, ◌≡◌, refl, arith, true, [], inl, inr}
use mcp_suite.Effect.{ok, err, Result-cases}
use mcp_suite.Effect.Raises.{Passes, Passes-err}
use mcp_suite.Shared.UrlPolicy.{Resolution}
use mcp_suite.Shared.SafeFetch.{
  FetchError, FetchPlatform, ResolvedOptions, RequestState, SafeFetchOptions,
  resolve_safe_fetch_options, create_request_state,
}
use mcp_suite.Shared.SafeFetch.Response.{FetchState}
use mcp_suite.Shared.SafeFetch.Redirect.{resolve_fetch_target}
use mcp_suite.Shared.SafeFetch.Loop.{reported, Network, hops, safe_fetch_text}
use mcp_suite.Shared.SafeFetch.Errors.{in_source, resolve_fetch_target-Passes}

abbrev pub start_state : RequestState → FetchState
start_state request = record { request = request; events = [] }

module _ (platform : FetchPlatform) (network : Network) where
  pub data Run (options : SafeFetchOptions) (input : String) : Type 0 where
    refused :
        (e : FetchError)
        → safe_fetch_text platform network options input ≡ (err e, [])
        → in_source e ≡ true
        → Run options input
    started :
        (resolved : ResolvedOptions) (request : RequestState) (target : Resolution)
        → resolve_safe_fetch_options options ≡ ok resolved
        → create_request_state platform options resolved ≡ ok request
        → resolve_fetch_target platform resolved input ≡ ok target
        → safe_fetch_text platform network options input
          ≡ reported (hops platform network resolved target (start_state request))
        → Run options input

  options_pass :
      (options : SafeFetchOptions) → Passes in_source (resolve_safe_fetch_options options)
  unfolding resolve_safe_fetch_options
  options_pass options = ground arith

  request_passes :
      (options : SafeFetchOptions) (resolved : ResolvedOptions)
      → Passes in_source (create_request_state platform options resolved)
  unfolding create_request_state
  request_passes options resolved = ground arith

  pub safe_fetch_text-Run : (options : SafeFetchOptions) (input : String) → Run options input
  unfolding safe_fetch_text
  safe_fetch_text-Run options input = elim (Result-cases (resolve_safe_fetch_options options)) [
    | inr (e, invalid) ↦
        refused e (rw (safe_fetch_text, invalid) refl) (
          Passes-err in_source (resolve_safe_fetch_options options) e (options_pass options)
            invalid)
    | inl (resolved, resolves) ↦
        elim (Result-cases (create_request_state platform options resolved)) [
          | inr (e, too_large) ↦ refused e (rw (safe_fetch_text, resolves, too_large) refl) (
              Passes-err in_source (create_request_state platform options resolved) e
                (request_passes options resolved) too_large)
          | inl (request, built) ↦
              elim (Result-cases (resolve_fetch_target platform resolved input)) [
                | inr (e, forbidden) ↦
                    refused e (rw (safe_fetch_text, resolves, built, forbidden) refl) (
                      Passes-err in_source (resolve_fetch_target platform resolved input) e
                        (resolve_fetch_target-Passes platform resolved input) forbidden)
                | inl (target, targeted) ↦
                    started resolved request target resolves built targeted
                      (rw (safe_fetch_text, resolves, built, targeted) refl)
              ]
        ]
  ]
