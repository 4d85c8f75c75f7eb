-- ===== src/Shared/SafeFetch/Errors.antt =====
-- Which errors the hops of `safeFetchText` of packages/shared/src/security/safeFetch.ts throw: none but
-- those of the source.
use mcp_suite.Common.{
  ℕ, refl, arith, String, Bool, true, false, Option, none, some, List, [], ◌∷◌, ◌++◌, Option-cases,
  inl, inr,
}
use mcp_suite.Effect.{Result, ok, err}
use mcp_suite.Effect.Raises.{Passes, Raises, raises_rules}
use mcp_suite.Shared.UrlPolicy.{Resolution, PolicyError, resolve_public_http_url}
use mcp_suite.Shared.SafeFetch.{
  FetchError, FetchPlatform, ResolvedOptions, RequestState, out_of_fuel,
}
use mcp_suite.Shared.SafeFetch.Response.{
  Response, FetchState, Stream, done, chunk, broken, aborted, assert_allowed_content_type,
  read_limited_response_body, read_or_destroy, read_chunks, read_body, destroy_response_body,
}
use mcp_suite.Shared.SafeFetch.Redirect.{
  follow_redirect, go_to, apply_redirect_request_policy, leave_origin, resolve_fetch_target,
  with_addresses, fetch_policy,
}
use mcp_suite.Shared.SafeFetch.Loop.{
  after_send, Network, HopResult, attempt, execute_request_hop, handle_response, complete_response,
  follow, pinned_request, with_failure,
}

abbrev pub in_source : FetchError → Bool
in_source out_of_fuel = false
in_source e = true

module _ (platform : FetchPlatform) where
  read_passes :
      (limit : ℕ) (read : List ℕ) (stream : Stream)
      → Passes in_source (read_chunks platform limit read stream)
  unfolding read_chunks
  read_passes limit read done = tt
  read_passes limit read (chunk bs rest) = ground (arith, read_passes limit (read ++ bs) rest)
  read_passes limit read broken = refl
  read_passes limit read aborted = refl

  destroy-Raises : (response : Response) → Raises in_source (destroy_response_body response)
  destroy-Raises response = elim (Option-cases response.body) [
    | inl absent ↦ record { passes = λ s. rw absent tt }
    | inr (stream, present) ↦ record { passes = λ s. rw present tt }
  ]

  ruleset source_rules = (raises_rules, destroy-Raises)

  type-Raises :
      (response : Response) (allowed : Option (List String))
      → Raises in_source (assert_allowed_content_type platform response allowed)
  unfolding assert_allowed_content_type
  type-Raises response none = search source_rules
  type-Raises response (some []) = search source_rules
  type-Raises response (some (value ∷ values)) = search source_rules

  read_or-Raises :
      (response : Response) (r : Result FetchError (List ℕ))
      → Passes in_source r
      → Raises in_source (read_or_destroy platform response r)
  read_or-Raises response (ok read) h = search source_rules
  read_or-Raises response (err e) h = search source_rules

  body-Raises :
      (response : Response) (limit : ℕ) (body : Option Stream)
      → Raises in_source (read_body platform response limit body)
  body-Raises response limit none = search source_rules
  body-Raises response limit (some stream) =
      read_or-Raises response (read_chunks platform limit [] stream) (read_passes limit [] stream)

  limited-Raises :
      (response : Response) (limit : ℕ)
      → Raises in_source (read_limited_response_body platform response limit)
  unfolding read_limited_response_body
  limited-Raises response limit = search (source_rules, body-Raises) depth 8

  policy_passes : (r : Result PolicyError Resolution) → Passes in_source (with_addresses r)
  policy_passes (err e) = refl
  policy_passes (ok target) =
      elim target.addresses
        as (λ addresses.
          Passes in_source (with_addresses (ok (record target { addresses = addresses })))) [
            | [] ↦ refl
            | a ∷ rest ↦ tt
          ]

  leave-Raises : (status : ℕ) → Raises in_source (leave_origin platform status)
  unfolding leave_origin
  leave-Raises status = search source_rules depth 8

  rewrite-Raises :
      (status : ℕ) (crossed : Bool)
      → Raises in_source (apply_redirect_request_policy platform status crossed)
  unfolding apply_redirect_request_policy
  rewrite-Raises status crossed = search (source_rules, leave-Raises) depth 8

  pub resolve_fetch_target-Passes :
      (options : ResolvedOptions) (input : String)
      → Passes in_source (resolve_fetch_target platform options input)
  resolve_fetch_target-Passes options input =
      policy_passes
        (resolve_public_http_url platform.urls (fetch_policy options.policy) options.lookup input)

  go-Raises :
      (status : ℕ) (current : Resolution) (options : ResolvedOptions) (location : String)
      → Raises in_source (go_to platform status current options location)
  unfolding go_to
  go-Raises status current options location =
      search (source_rules, rewrite-Raises, resolve_fetch_target-Passes) depth 8

  follow-Raises :
      (response : Response) (current : Resolution) (options : ResolvedOptions) (n : ℕ)
      → Raises in_source (follow_redirect platform response current options n)
  unfolding follow_redirect
  follow-Raises response current options n = search (source_rules, go-Raises) depth 8

module _ (platform : FetchPlatform) (network : Network) (options : ResolvedOptions) where
  response-Raises :
      (response : Response) (target : Resolution) (n : ℕ)
      → Raises in_source (handle_response platform network options response target n)
  unfolding handle_response complete_response follow
  response-Raises response target n =
      search (source_rules, follow-Raises, type-Raises, limited-Raises) depth 8

  pinned_passes :
      (target : Resolution) (request : RequestState)
      → Passes in_source (pinned_request target request)
  pinned_passes target request =
      elim target.addresses
        as (λ addresses.
          Passes in_source (pinned_request (record target { addresses = addresses }) request)) [
            | [] ↦ refl
            | a ∷ rest ↦ tt
          ]

  attempt-Raises :
      (target : Resolution) (n : ℕ) → Raises in_source (attempt platform network options target n)
  unfolding attempt after_send
  attempt-Raises target n = search (source_rules, pinned_passes, response-Raises) depth 9

  normalized_passes :
      (is_aborted : Bool) (r : Result FetchError HopResult)
      → Passes in_source r
      → Passes in_source (with_failure is_aborted r)
  normalized_passes true (ok a) h = tt
  normalized_passes false (ok a) h = tt
  normalized_passes true (err e) h = refl
  normalized_passes false (err e) h = ground arith

  pub execute_request_hop-Passes :
      (target : Resolution) (n : ℕ) (s : FetchState)
      → Passes in_source (execute_request_hop platform network options target n s).0
  unfolding execute_request_hop
  execute_request_hop-Passes target n s =
      normalized_passes (network.is_aborted n) (attempt platform network options target n s).0
        ((attempt-Raises target n).passes s)
