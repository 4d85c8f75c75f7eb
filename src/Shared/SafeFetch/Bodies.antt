-- ===== src/Shared/SafeFetch/Bodies.antt =====
-- How much of a body packages/shared/src/security/safeFetch.ts returns.
use mcp_suite.Common.{
  ◌≢◌, ℕ, zero, suc, ◌+◌, ◌≤◌, String, ◌≡◌, sym, ◌∙◌, ap, subst, arith, Option, none, some, List,
  [], ◌++◌, length, length-append, ltb, ◌⊎◌, inl, inr, Bool-cases,
}
use mcp_suite.Effect.{ok, Result-cases, ◌>>=◌}
use mcp_suite.Shared.UrlPolicy.{Resolution}
use mcp_suite.Shared.SafeFetch.{
  FetchPlatform, ResolvedOptions, SafeFetchOptions, resolve_safe_fetch_options,
}
use mcp_suite.Shared.SafeFetch.Response.{
  Response, FetchState, Stream, done, chunk, broken, aborted, read_chunks, read_body,
  read_limited_response_body, declares_too_much, assert_allowed_content_type, is_redirect,
}
use mcp_suite.Shared.SafeFetch.Loop.{
  Network, SafeFetchResult, complete, redirect, complete_response, follow, handle_response,
  execute_request_hop, run_hops, safe_fetch_text,
}
use mcp_suite.Shared.SafeFetch.Hops.{called, execute_request_hop-Handled}
use mcp_suite.Shared.SafeFetch.Start.{Run, refused, started, start_state, safe_fetch_text-Run}

module _ (platform : FetchPlatform) where
  read_chunks_bound :
      (limit : ℕ) (read : List ℕ) (stream : Stream) (all : List ℕ)
      → length read ≤ limit
      → read_chunks platform limit read stream ≡ ok all
      → length all ≤ limit
  unfolding read_chunks
  read_chunks_bound limit read done all below h =
      subst (λ bs. length bs ≤ limit) {x = read} (ground arith) below
  read_chunks_bound limit read broken all below h = absurd (ground arith)
  read_chunks_bound limit read aborted all below h = absurd (ground arith)
  read_chunks_bound limit read (chunk bs rest) all below h =
      elim (Bool-cases (ltb limit (length read + length bs))) [
        | inl over ↦ absurd (ground (arith, over, h))
        | inr under ↦
            read_chunks_bound limit (read ++ bs) rest all
              (ground (arith, length-append read bs, under)) (ground (arith, under, h))
      ]

  -- A text that is decoded from at most so many bytes; a response without a body gives the empty text.
  pub Bounded : ℕ → String → Type 0
  Bounded limit text =
      (text ≡ "") ⊎ ((read : List ℕ) × (text ≡ platform.decode read) × (length read ≤ limit))

  body-Bounded :
      (response : Response) (limit : ℕ) (body : Option Stream) (s : FetchState) (text : String)
      → (read_body platform response limit body s).0 ≡ ok text
      → Bounded limit text
  unfolding Bounded ◌>>=◌
  body-Bounded response limit none s text h = inl (ground arith)
  body-Bounded response limit (some stream) s text h =
      elim (Result-cases (read_chunks platform limit [] stream)) [
        | inl (read, returned) ↦ inr (
          read,
          ground (arith, returned, h),
          read_chunks_bound limit [] stream read (omega arith) returned,
        )
        | inr (e, raised) ↦ absurd (ground (arith, raised, h))
      ]

  read_limited_response_body-Bounded :
      (response : Response) (limit : ℕ) (s : FetchState) (text : String)
      → (read_limited_response_body platform response limit s).0 ≡ ok text
      → Bounded limit text
  unfolding read_limited_response_body ◌>>=◌
  read_limited_response_body-Bounded response limit s text h =
      elim (Bool-cases (declares_too_much platform response limit)) [
        | inl over ↦ absurd (ground (arith, over, h))
        | inr under ↦ body-Bounded response limit response.body s text (ground (arith, under, h))
      ]

module _ (platform : FetchPlatform) (network : Network) (options : ResolvedOptions) where
  complete_response-Bounded :
      (response : Response) (target : Resolution) (s : FetchState) (r : SafeFetchResult)
      → (complete_response platform network options response target s).0 ≡ ok (complete r)
      → Bounded platform options.max_response_bytes r.body_text
  unfolding complete_response ◌>>=◌
  complete_response-Bounded response target s r h =
      elim (Result-cases
        (assert_allowed_content_type platform response options.allowed_content_types s).0) [
          | inr (e, stopped) ↦ absurd (ground (arith, stopped, h))
          | inl (u, allowed) ↦
              let t : FetchState =
                (assert_allowed_content_type platform response options.allowed_content_types s).1 in
              elim (Result-cases
                (read_limited_response_body platform response options.max_response_bytes t).0) [
                  | inr (e, stopped) ↦ absurd (ground (arith, allowed, stopped, h))
                  | inl (text, read) ↦
                      subst (Bounded platform options.max_response_bytes) {x = text}
                        (ground (arith, allowed, read, h))
                        (read_limited_response_body-Bounded platform response
                          options.max_response_bytes t text read)
                ]
        ]

  follow_redirects :
      (response : Response) (target : Resolution) (n : ℕ) (s : FetchState) (r : SafeFetchResult)
      → (follow platform network options response target n s).0 ≢ ok (complete r)
  unfolding follow ◌>>=◌
  follow_redirects response target n s r h = ground arith

  hop-Bounded :
      (target : Resolution) (n : ℕ) (s : FetchState) (r : SafeFetchResult)
      → (execute_request_hop platform network options target n s).0 ≡ ok (complete r)
      → Bounded platform options.max_response_bytes r.body_text
  unfolding handle_response
  hop-Bounded target n s r h =
      let hop = execute_request_hop-Handled platform network options target n s (complete r) h in
      elim (Bool-cases (is_redirect hop.response.status)) [
        | inl moved ↦ absurd (
            follow_redirects hop.response target n (called target s) r
              (ground (arith, moved, hop.handled)))
        | inr final ↦
            complete_response-Bounded hop.response target (called target s) r
              (ground (arith, final, hop.handled))
      ]

  run_hops-Bounded :
      (fuel : ℕ) (target : Resolution) (n : ℕ) (s : FetchState) (r : SafeFetchResult)
      → (run_hops platform network options fuel target n s).0 ≡ ok r
      → Bounded platform options.max_response_bytes r.body_text
  unfolding run_hops ◌>>=◌
  run_hops-Bounded zero target n s r h = absurd (ground arith)
  run_hops-Bounded (suc fuel) target n s r h =
      elim (Result-cases (execute_request_hop platform network options target n s).0) [
        | inr (e, raised) ↦ absurd (ground (arith, raised, h))
        | inl (complete result, returned) ↦ hop-Bounded target n s r (ground (arith, returned, h))
        | inl (redirect next, returned) ↦
            run_hops-Bounded fuel next (suc n)
              (execute_request_hop platform network options target n s).1 r
              (ground (arith, returned, h))
      ]

module _ (platform : FetchPlatform) (network : Network) where
  result-Bounded :
      (options : SafeFetchOptions) (input : String) (resolved : ResolvedOptions)
      (r : SafeFetchResult)
      → resolve_safe_fetch_options options ≡ ok resolved
      → (safe_fetch_text platform network options input).0 ≡ ok r
      → Run platform network options input
      → Bounded platform resolved.max_response_bytes r.body_text
  result-Bounded options input resolved r h fetched (refused e returned known) =
      absurd (ground arith)
  result-Bounded options input resolved r h fetched
        (started own request target resolves built targeted returned) =
      let same : own ≡ resolved = ground arith in
      subst (λ o. Bounded platform o.max_response_bytes r.body_text) same
        (run_hops-Bounded platform network own (suc (suc own.max_redirects)) target 0
          (start_state request) r (sym (ap (λ out. out.0) returned) ∙ fetched))

  -- The text that a fetch returns is empty or decoded from at most `maxResponseBytes` bytes, whatever the
  -- length that the response declares and however its chunks are cut.
  pub safe_fetch_text-Bounded :
      (options : SafeFetchOptions) (input : String) (resolved : ResolvedOptions)
      (r : SafeFetchResult)
      → resolve_safe_fetch_options options ≡ ok resolved
      → (safe_fetch_text platform network options input).0 ≡ ok r
      → Bounded platform resolved.max_response_bytes r.body_text
  safe_fetch_text-Bounded options input resolved r h fetched =
      result-Bounded options input resolved r h fetched
        (safe_fetch_text-Run platform network options input)
