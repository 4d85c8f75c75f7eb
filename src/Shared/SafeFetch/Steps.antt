-- ===== src/Shared/SafeFetch/Steps.antt =====
-- The step from one hop of `safeFetchText` of packages/shared/src/security/safeFetch.ts to the next, and
-- what holds of every call of `fetch` because each step keeps it.
use mcp_suite.Common.{
  ℕ, zero, suc, ◌≡◌, ◌≢◌, refl, subst, arith, String, Bool, true, false, not, some, if◌then◌else◌,
  leb, truthy, All, All-snoc, ◌==◌, Bool-cases, Option-cases, inl, inr,
}
use mcp_suite.Effect.{ok, Result-cases, ◌>>=◌}
use mcp_suite.Shared.Url.{Url}
use mcp_suite.Shared.UrlPolicy.{Resolution}
use mcp_suite.Shared.SafeFetch.{FetchPlatform, ResolvedOptions, RequestState}
use mcp_suite.Shared.SafeFetch.Response.{Response, FetchState, is_redirect, destroy_response_body}
use mcp_suite.Shared.SafeFetch.Redirect.{
  follow_redirect, go_to, apply_redirect_request_policy, leave_origin, drop_credentials,
  rewrite_method, resolve_fetch_target, cannot_forward,
}
use mcp_suite.Shared.SafeFetch.Loop.{
  Network, redirect, complete, execute_request_hop, handle_response, complete_response, follow,
  run_hops,
}
use mcp_suite.Shared.SafeFetch.Hops.{
  called, calls, execute_request_hop-calls, execute_request_hop-Handled,
}

module _ (platform : FetchPlatform) where
  abbrev crosses : Url → Resolution → Bool
  crosses url current = not (url.origin == current.url.origin)

  abbrev pub kept_headers : Bool → RequestState → RequestState
  kept_headers crossed request = if crossed then drop_credentials platform request else request

  -- The next target and request after a redirect of this status.
  pub record Moved (options : ResolvedOptions) (current : Resolution) (before : RequestState)
      (next : Resolution) (after : RequestState) : Type 0 where
    pub status : ℕ
    pub location : String
    pub url : Url
    pub located : platform.urls.resolve_url location current.url ≡ some url
    pub targeted : resolve_fetch_target platform options url.text ≡ ok next
    pub rewritten :
        after ≡ rewrite_method platform status (kept_headers (crosses url current) before)

  policy_request :
      (status : ℕ) (crossed : Bool) (s : FetchState)
      → (apply_redirect_request_policy platform status crossed s).0 ≡ ok tt
      → (apply_redirect_request_policy platform status crossed s).1.request
        ≡ rewrite_method platform status (kept_headers crossed s.request)
  unfolding apply_redirect_request_policy leave_origin ◌>>=◌
  policy_request status false s h = refl
  policy_request status true s h =
      elim (Bool-cases (cannot_forward platform status (drop_credentials platform s.request))) [
        | inl held ↦ absurd (ground (arith, held, h))
        | inr free ↦ rw free refl
      ]

  go_to-Moved :
      (status : ℕ) (current next : Resolution) (options : ResolvedOptions) (location : String)
      (s : FetchState)
      → (go_to platform status current options location s).0 ≡ ok next
      → Moved options current s.request next
          (go_to platform status current options location s).1.request
  unfolding go_to ◌>>=◌
  go_to-Moved status current next options location s h =
      elim (Option-cases (platform.urls.resolve_url location current.url)) [
        | inl invalid ↦ absurd (ground (arith, invalid, h))
        | inr (url, located) ↦
            elim (Result-cases
              (apply_redirect_request_policy platform status (crosses url current) s).0) [
                | inr (e, refused) ↦ absurd (ground (arith, located, refused, h))
                | inl (u, allowed) ↦ record {
                  status = status;
                  location = location;
                  url = url;
                  located = located;
                  targeted = ground (arith, located, allowed, h);
                  rewritten =
                      rw (located, allowed) (policy_request status (crosses url current) s allowed);
                }
              ]
      ]

  -- Where the request is the one before, so is the step.
  after_destroy :
      (response : Response) (s : FetchState)
      → ((destroy_response_body response s).0 ≡ ok tt)
        × ((destroy_response_body response s).1.request ≡ s.request)
  after_destroy response s = elim (Option-cases response.body) [
    | inl absent ↦ (rw absent refl, rw absent refl)
    | inr (stream, present) ↦ (rw present refl, rw present refl)
  ]

  follow_redirect-Moved :
      (response : Response) (current next : Resolution) (options : ResolvedOptions) (n : ℕ)
      (s : FetchState)
      → (follow_redirect platform response current options n s).0 ≡ ok next
      → Moved options current s.request next
          (follow_redirect platform response current options n s).1.request
  unfolding follow_redirect ◌>>=◌
  follow_redirect-Moved response current next options n s h =
      let (destroyed, kept) = after_destroy response s in
      elim (Bool-cases (leb options.max_redirects n)) [
        | inl full ↦ absurd (ground (arith, destroyed, full, h))
        | inr left ↦ elim (Option-cases (truthy (response.header "location"))) [
          | inl missing ↦ absurd (ground (arith, destroyed, left, missing, h))
          | inr (location, present) ↦
              let t : FetchState = (destroy_response_body response s).1 in
              rw (destroyed, left, present)
                (subst
                  (λ before.
                    Moved options current before next
                      (go_to platform response.status current options location t).1.request)
                  kept
                  (go_to-Moved response.status current next options location t
                    (ground (arith, destroyed, left, present, h))))
        ]
      ]

module _ (platform : FetchPlatform) (network : Network) (options : ResolvedOptions) where
  response_completes :
      (response : Response) (target next : Resolution) (s : FetchState)
      → (complete_response platform network options response target s).0 ≢ ok (redirect next)
  unfolding complete_response ◌>>=◌
  response_completes response target next s h = ground arith

  -- A hop that redirects below the limit went through `follow`.
  follow-Moved :
      (response : Response) (target next : Resolution) (n : ℕ) (s : FetchState)
      → (follow platform network options response target n s).0 ≡ ok (redirect next)
      → Moved platform options target s.request next
          (follow platform network options response target n s).1.request
  unfolding follow ◌>>=◌
  follow-Moved response target next n s h =
      elim (Result-cases (follow_redirect platform response target options n s).0) [
        | inr (e, refused) ↦ absurd (ground (arith, refused, h))
        | inl (found, followed) ↦ rw followed (
            follow_redirect-Moved platform response target next options n s
              (ground (arith, followed, h)))
      ]

  pub execute_request_hop-Moved :
      (target next : Resolution) (n : ℕ) (s : FetchState)
      → (execute_request_hop platform network options target n s).0 ≡ ok (redirect next)
      → Moved platform options target s.request next
          (execute_request_hop platform network options target n s).1.request
  unfolding handle_response
  execute_request_hop-Moved target next n s h =
      let hop = execute_request_hop-Handled platform network options target n s (redirect next) h in
      elim (Bool-cases (is_redirect hop.response.status)) [
        | inr final ↦ absurd (
            response_completes hop.response target next (called target s)
              (ground (arith, final, hop.handled)))
        | inl moved ↦
            rw (hop.left, moved)
              (follow-Moved hop.response target next n (called target s)
                (ground (arith, moved, hop.handled)))
      ]

  -- A property of target and request that each redirect keeps holds of every call.
  pub run_hops-All :
      (P : Resolution → RequestState → Type 0)
      → ((target next : Resolution) (before after : RequestState)
          → Moved platform options target before next after
          → P target before
          → P next after)
      → (fuel : ℕ) (target : Resolution) (n : ℕ) (s : FetchState) → P target s.request
      → All (λ call. P call.target call.request) (calls s.events)
      → All
          (λ call. P call.target call.request)
          (calls (run_hops platform network options fuel target n s).1.events)
  unfolding run_hops ◌>>=◌
  run_hops-All P step zero target n s here before = before
  run_hops-All P step (suc fuel) target n s here before =
      let now : All (λ call. P call.target call.request)
          (calls (execute_request_hop platform network options target n s).1.events) =
        elim (execute_request_hop-calls platform network options target n s) [
          | inl none_sent ↦ rw none_sent before
          | inr one_sent ↦ rw one_sent (
              All-snoc (λ call. P call.target call.request) (calls s.events)
                (record { target = target; request = s.request }) before here)
        ] in
      elim (Result-cases (execute_request_hop platform network options target n s).0) [
        | inl (complete result, returned) ↦ rw returned now
        | inr (e, raised) ↦ rw raised now
        | inl (redirect next, returned) ↦ rw returned (
            run_hops-All P step fuel next (suc n)
              (execute_request_hop platform network options target n s).1
              (step target next s.request
                (execute_request_hop platform network options target n s).1.request
                (execute_request_hop-Moved target next n s returned) here)
              now)
      ]
