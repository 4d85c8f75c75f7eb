-- ===== src/Shared/SafeFetch/Bounds.antt =====
-- The loop of `safeFetchText` of packages/shared/src/security/safeFetch.ts ends, after at most one call of
-- `fetch` more than the redirects that are allowed.
use mcp_suite.Common.{
  ℕ, zero, suc, ◌+◌, ◌≤◌, ◌<◌, ◌≡◌, ◌≢◌, sym, ◌∙◌, ap, subst, arith, String, [], ◌∷◌, leb, length,
  length-append, Bool-cases, inl, inr,
}
use mcp_suite.Effect.{ok, err, Result-cases, ◌>>=◌}
use mcp_suite.Effect.Raises.{Passes-err}
use mcp_suite.Shared.UrlPolicy.{Resolution}
use mcp_suite.Shared.SafeFetch.{
  SafeFetchOptions, resolve_safe_fetch_options, FetchPlatform, ResolvedOptions, out_of_fuel,
}
use mcp_suite.Shared.SafeFetch.Response.{Response, FetchState, is_redirect}
use mcp_suite.Shared.SafeFetch.Redirect.{follow_redirect}
use mcp_suite.Shared.SafeFetch.Loop.{
  Network, redirect, complete, execute_request_hop, handle_response, complete_response, follow,
  run_hops, safe_fetch_text, hops,
}
use mcp_suite.Shared.SafeFetch.Hops.{
  called, calls, execute_request_hop-calls, execute_request_hop-Handled,
}
use mcp_suite.Shared.SafeFetch.Start.{Run, refused, started, start_state, safe_fetch_text-Run}
use mcp_suite.Shared.SafeFetch.Errors.{in_source, execute_request_hop-Passes}

module _ (platform : FetchPlatform) (network : Network) (options : ResolvedOptions) where
  response_completes :
      (response : Response) (target next : Resolution) (s : FetchState)
      → (complete_response platform network options response target s).0 ≢ ok (redirect next)
  unfolding complete_response ◌>>=◌
  response_completes response target next s h = ground arith

  follow_below :
      (response : Response) (target next : Resolution) (n : ℕ) (s : FetchState)
      → (follow platform network options response target n s).0 ≡ ok (redirect next)
      → n < options.max_redirects
  unfolding follow follow_redirect ◌>>=◌
  follow_below response target next n s h = elim (Bool-cases (leb options.max_redirects n)) [
    | inl full ↦ absurd (ground (arith, full, h))
    | inr left ↦ ground (arith, left)
  ]

  -- A redirect is followed only while fewer were followed than allowed.
  redirects_below :
      (target next : Resolution) (n : ℕ) (s : FetchState)
      → (execute_request_hop platform network options target n s).0 ≡ ok (redirect next)
      → n < options.max_redirects
  unfolding handle_response
  redirects_below target next n s h =
      let hop = execute_request_hop-Handled platform network options target n s (redirect next) h in
      elim (Bool-cases (is_redirect hop.response.status)) [
        | inl moved ↦
            follow_below hop.response target next n (called target s)
              (ground (arith, moved, hop.handled))
        | inr final ↦ absurd (
            response_completes hop.response target next (called target s)
              (ground (arith, final, hop.handled)))
      ]

  -- The loop with fuel for the redirects that are left never runs out of it.
  run_hops_ends :
      (fuel : ℕ) (target : Resolution) (n : ℕ) (s : FetchState)
      → options.max_redirects < fuel + n
      → n ≤ options.max_redirects
      → (run_hops platform network options fuel target n s).0 ≢ err out_of_fuel
  unfolding run_hops ◌>>=◌
  run_hops_ends zero target n s enough below h = omega arith
  run_hops_ends (suc fuel) target n s enough below h =
      elim (Result-cases (execute_request_hop platform network options target n s).0) [
        | inl (complete result, returned) ↦ absurd (ground (arith, returned, h))
        | inl (redirect next, returned) ↦
            run_hops_ends fuel next (suc n)
              (execute_request_hop platform network options target n s).1 (omega arith)
              (omega (arith, redirects_below target next n s returned))
              (ground (arith, returned, h))
        | inr (e, raised) ↦ absurd (
            ground (
              arith,
              raised,
              h,
              Passes-err in_source (execute_request_hop platform network options target n s).0 e
                  (execute_request_hop-Passes platform network options target n s) raised,
            ))
      ]

  hop_calls :
      (target : Resolution) (n : ℕ) (s : FetchState)
      → length (calls (execute_request_hop platform network options target n s).1.events)
        ≤ suc (length (calls s.events))
  hop_calls target n s = elim (execute_request_hop-calls platform network options target n s) [
    | inl none_sent ↦ rw none_sent (omega arith)
    | inr one_sent ↦ rw one_sent (
        omega (
          arith,
          length-append (calls s.events) (record { target = target; request = s.request } ∷ []),
        ))
  ]

  -- Whatever the fuel: the check of `followRedirect` bounds the calls.
  run_hops-calls :
      (fuel : ℕ) (target : Resolution) (n : ℕ) (s : FetchState)
      → n ≤ options.max_redirects
      → n + length (calls (run_hops platform network options fuel target n s).1.events)
        ≤ suc (options.max_redirects + length (calls s.events))
  unfolding run_hops ◌>>=◌
  run_hops-calls zero target n s below = omega (arith, below)
  run_hops-calls (suc fuel) target n s below =
      elim (Result-cases (execute_request_hop platform network options target n s).0) [
        | inl (complete result, returned) ↦ rw returned (omega (arith, below, hop_calls target n s))
        | inl (redirect next, returned) ↦ rw returned (
            omega (
              arith,
              hop_calls target n s,
              run_hops-calls fuel next (suc n)
                  (execute_request_hop platform network options target n s).1
                  (omega (arith, redirects_below target next n s returned)),
            ))
        | inr (e, raised) ↦ rw raised (omega (arith, below, hop_calls target n s))
      ]

module _ (platform : FetchPlatform) (network : Network) where
  start_ends :
      (options : SafeFetchOptions) (input : String)
      → Run platform network options input
      → (safe_fetch_text platform network options input).0 ≢ err out_of_fuel
  start_ends options input (refused e returned known) h = ground (arith, returned, known, h)
  start_ends options input (started resolved request target resolves built targeted returned) h =
      run_hops_ends platform network resolved (suc (suc resolved.max_redirects)) target 0
        (start_state request) (omega arith) (omega arith) (sym (ap (λ out. out.0) returned) ∙ h)

  -- A fetch ends: whatever the network answers, the loop stays within its fuel.
  pub safe_fetch_text_ends :
      (options : SafeFetchOptions) (input : String)
      → (safe_fetch_text platform network options input).0 ≢ err out_of_fuel
  safe_fetch_text_ends options input =
      start_ends options input (safe_fetch_text-Run platform network options input)

  start_calls :
      (options : SafeFetchOptions) (input : String) (resolved : ResolvedOptions)
      → resolve_safe_fetch_options options ≡ ok resolved
      → Run platform network options input
      → length (calls (safe_fetch_text platform network options input).1)
        ≤ suc resolved.max_redirects
  start_calls options input resolved h (refused e returned known) = rw returned (omega arith)
  start_calls options input resolved h
        (started own request target resolves built targeted returned) =
      rw returned (
        subst
          (λ m.
            length (calls (hops platform network own target (start_state request)).1.events)
            ≤ suc m)
          {x = own.max_redirects} (ground (arith, resolves, h))
          (omega (
            arith,
            run_hops-calls platform network own (suc (suc own.max_redirects)) target 0
                (start_state request) (omega arith),
          )))

  -- The network is called at most once more than redirects are allowed.
  pub safe_fetch_text-calls :
      (options : SafeFetchOptions) (input : String) (resolved : ResolvedOptions)
      → resolve_safe_fetch_options options ≡ ok resolved
      → length (calls (safe_fetch_text platform network options input).1)
        ≤ suc resolved.max_redirects
  safe_fetch_text-calls options input resolved h =
      start_calls options input resolved h (safe_fetch_text-Run platform network options input)
