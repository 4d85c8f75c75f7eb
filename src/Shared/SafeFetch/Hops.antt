-- ===== src/Shared/SafeFetch/Hops.antt =====
-- What a hop of `safeFetchText` of packages/shared/src/security/safeFetch.ts does to the events: at most
-- one call of `fetch`, to the target of the hop, and a redirect only below the limit.
use mcp_suite.Common.{
  ℕ, ◌≡◌, refl, ◌∙◌, ap, arith, String, Bool, Option, none, some, List, [], ◌∷◌, ◌++◌, Option-cases,
  ◌⊎◌, inl, inr,
}
use mcp_suite.Effect.{Result, ok, err, ◌>>=◌}
use mcp_suite.Effect.Respects.{Preorder, Respects, respects_rules}
use mcp_suite.Shared.UrlPolicy.{Resolution}
use mcp_suite.Shared.SafeFetch.{
  FetchError, FetchPlatform, ResolvedOptions, RequestState, no_addresses,
}
use mcp_suite.Shared.SafeFetch.Response.{
  Response, FetchState, Event, Sent, sent, destroyed, Stream, assert_allowed_content_type,
  read_limited_response_body, read_or_destroy, read_chunks, read_body, destroy_response_body,
}
use mcp_suite.Shared.SafeFetch.Redirect.{
  set_request, follow_redirect, go_to, apply_redirect_request_policy, leave_origin,
}
use mcp_suite.Shared.SafeFetch.Loop.{
  after_send, Network, HopResult, attempt, execute_request_hop, handle_response, complete_response,
  follow, pinned_request, with_failure,
}

-- The calls of `fetch` among the events, in order.
abbrev pub calls : List Event → List Sent
calls [] = []
calls (sent call ∷ events) = call ∷ calls events
calls (destroyed ∷ events) = calls events

pub calls-append-destroyed : (events : List Event) → calls (events ++ destroyed ∷ []) ≡ calls events
calls-append-destroyed [] = refl
calls-append-destroyed (sent call ∷ events) = ap (λ cs. call ∷ cs) (calls-append-destroyed events)
calls-append-destroyed (destroyed ∷ events) = calls-append-destroyed events

pub calls-append-sent :
    (events : List Event) (call : Sent)
    → calls (events ++ sent call ∷ []) ≡ calls events ++ call ∷ []
calls-append-sent [] call = refl
calls-append-sent (sent first ∷ events) call = ap (λ cs. first ∷ cs) (calls-append-sent events call)
calls-append-sent (destroyed ∷ events) call = calls-append-sent events call

-- The state in which a response is handled.
abbrev pub called : Resolution → FetchState → FetchState
called target s = record s {
  events = s.events ++ sent (record { target = target; request = s.request }) ∷ [];
}

-- No call of `fetch` between the two states.
pub record Quiet (s t : FetchState) : Type 0 where
  pub same_calls : calls t.events ≡ calls s.events

instance abbrev pub Quiet-preorder : Preorder Quiet
Quiet-preorder = record {
  same = λ s. record { same_calls = refl };
  step = λ s t u p q. record { same_calls = q.same_calls ∙ p.same_calls };
}

-- A method that leaves the events to those it calls.
quiet_destroy : (response : Response) → Respects Quiet (destroy_response_body response)
quiet_destroy response = elim (Option-cases response.body) [
  | inl absent ↦ record { at = λ s. record { same_calls = rw absent refl } }
  | inr (stream, present) ↦ record {
    at = λ s. record { same_calls = rw present (calls-append-destroyed s.events) };
  }
]

quiet_set : (f : RequestState → RequestState) → Respects Quiet (set_request f)
quiet_set f = record { at = λ s. record { same_calls = refl } }

ruleset quiet_rules = (respects_rules, quiet_destroy, quiet_set)

module _ (platform : FetchPlatform) where
  quiet_type :
      (response : Response) (allowed : Option (List String))
      → Respects Quiet (assert_allowed_content_type platform response allowed)
  unfolding assert_allowed_content_type
  quiet_type response none = search quiet_rules
  quiet_type response (some []) = search quiet_rules
  quiet_type response (some (value ∷ values)) = search quiet_rules

  quiet_read_or :
      (response : Response) (r : Result FetchError (List ℕ))
      → Respects Quiet (read_or_destroy platform response r)
  quiet_read_or response (ok read) = search quiet_rules
  quiet_read_or response (err e) = search quiet_rules

  quiet_body :
      (response : Response) (limit : ℕ) (body : Option Stream)
      → Respects Quiet (read_body platform response limit body)
  quiet_body response limit none = search quiet_rules
  quiet_body response limit (some stream) =
      quiet_read_or response (read_chunks platform limit [] stream)

  quiet_read :
      (response : Response) (limit : ℕ)
      → Respects Quiet (read_limited_response_body platform response limit)
  unfolding read_limited_response_body
  quiet_read response limit = search (quiet_rules, quiet_body) depth 8

  quiet_leave : (status : ℕ) → Respects Quiet (leave_origin platform status)
  unfolding leave_origin
  quiet_leave status = search quiet_rules depth 8

  quiet_policy :
      (status : ℕ) (crossed : Bool)
      → Respects Quiet (apply_redirect_request_policy platform status crossed)
  unfolding apply_redirect_request_policy
  quiet_policy status crossed = search (quiet_rules, quiet_leave) depth 8

  quiet_go :
      (status : ℕ) (current : Resolution) (options : ResolvedOptions) (location : String)
      → Respects Quiet (go_to platform status current options location)
  unfolding go_to
  quiet_go status current options location = search (quiet_rules, quiet_policy) depth 8

  quiet_follow :
      (response : Response) (current : Resolution) (options : ResolvedOptions) (n : ℕ)
      → Respects Quiet (follow_redirect platform response current options n)
  unfolding follow_redirect
  quiet_follow response current options n = search (quiet_rules, quiet_go) depth 8

module _ (platform : FetchPlatform) (network : Network) (options : ResolvedOptions) where
  quiet_response :
      (response : Response) (target : Resolution) (n : ℕ)
      → Respects Quiet (handle_response platform network options response target n)
  unfolding handle_response complete_response follow
  quiet_response response target n =
      search (quiet_rules, quiet_follow, quiet_type, quiet_read) depth 8

  quiet_after_send :
      (call : Sent) (target : Resolution) (n : ℕ)
      → Respects Quiet (after_send platform network options call target n)
  unfolding after_send
  quiet_after_send call target n = search (quiet_rules, quiet_response) depth 8

  pinned :
      (target : Resolution) (request : RequestState)
      → ((e : FetchError) × (pinned_request target request ≡ err e))
        ⊎ (pinned_request target request ≡ ok (record { target = target; request = request }))
  pinned target request =
      elim target.addresses
        as (λ addresses.
          ((e : FetchError) × (pinned_request (record target { addresses = addresses }) request
              ≡ err e))
          ⊎ (pinned_request (record target { addresses = addresses }) request
              ≡ ok (record {
                target = record target { addresses = addresses };
                request = request;
              }))) [ [] ↦ inl (no_addresses, refl) | a ∷ rest ↦ inr refl ]

  -- A hop calls `fetch` at most once, for its own target.
  pub execute_request_hop-calls :
      (target : Resolution) (n : ℕ) (s : FetchState)
      → (calls (execute_request_hop platform network options target n s).1.events ≡ calls s.events)
        ⊎ (calls (execute_request_hop platform network options target n s).1.events
            ≡ calls s.events ++ record { target = target; request = s.request } ∷ [])
  unfolding execute_request_hop attempt ◌>>=◌
  execute_request_hop-calls target n s = elim (pinned target s.request) [
    | inl (e, none_pinned) ↦ inl (rw none_pinned refl)
    | inr one ↦ inr (
        rw one (
          ((quiet_after_send (record { target = target; request = s.request }) target n).at
            (record s {
              events = s.events ++ sent (record { target = target; request = s.request }) ∷ [];
            })).same_calls
          ∙ calls-append-sent s.events (record { target = target; request = s.request })))
  ]

  -- A hop that returns handled a response.
  pub record Handled (target : Resolution) (n : ℕ) (s : FetchState) (r : HopResult) : Type 0 where
    pub response : Response
    pub handled :
        (handle_response platform network options response target n (called target s)).0 ≡ ok r
    pub left :
        (execute_request_hop platform network options target n s).1
        ≡ (handle_response platform network options response target n (called target s)).1

  unfailed :
      (is_aborted : Bool) (r : Result FetchError HopResult) (hop : HopResult)
      → with_failure is_aborted r ≡ ok hop
      → r ≡ ok hop
  unfailed is_aborted (ok a) hop h = h
  unfailed is_aborted (err e) hop h = absurd (ground arith)

  pub execute_request_hop-Handled :
      (target : Resolution) (n : ℕ) (s : FetchState) (r : HopResult)
      → (execute_request_hop platform network options target n s).0 ≡ ok r
      → Handled target n s r
  unfolding execute_request_hop attempt after_send ◌>>=◌
  execute_request_hop-Handled target n s r h =
      let tried =
        unfailed (network.is_aborted n) (attempt platform network options target n s).0 r h in
      elim (pinned target s.request) [
        | inl (e, none_pinned) ↦ absurd (ground (arith, none_pinned, tried))
        | inr one ↦
            elim (Option-cases
              (network.fetch n (record { target = target; request = s.request }))) [
                | inl failed ↦ absurd (ground (arith, one, failed, tried))
                | inr (response, answered) ↦ record {
                  response = response;
                  handled = ground (arith, one, answered, tried);
                  left = rw (one, answered) refl;
                }
              ]
      ]
