-- ===== src/Sentinel/Proxy/Admission.antt =====
-- Which calls reach the upstream server: packages/sentinel/src/proxy/SentinelProxy.ts.
use mcp_suite.Common.{
  ℕ, String, ◌≡◌, truthy, refl, subst, sym, Bool, Bool-cases, true, Option, [], ◌∷◌, ◌++◌, ◌⊎◌, inl,
  inr, arith,
}
use mcp_suite.Effect.{Result, Result-cases, ok, err, ◌>>=◌}
use mcp_suite.Sentinel.Request.{ToolCallRequest}
use mcp_suite.Sentinel.Approval.Model.{Error, Store, ApprovalRequest, is_approved}
use mcp_suite.Sentinel.Approval.Claim.{claim_execution}
use mcp_suite.Sentinel.Approval.Gate.{Gate, hold_request, on_store, GateError}
use mcp_suite.Sentinel.Keys.{VirtualKey}
use mcp_suite.Sentinel.Pipeline.{Limiter, process, deny, require_approval}
use mcp_suite.Sentinel.Proxy.{
  CallParams, denied, denial, handle_tool_call, forward, finish, resolve_virtual_key, bearer_of,
  request_of, ProxyWorld, Proxy, enforce_approval, decided_call, read_optional_expiry, config_of,
  either_header,
}

module _ (world : ProxyWorld) (fuel : ℕ) where
  abbrev expiry_header : ToolCallRequest → Option String
  expiry_header request = truthy (
      either_header "x-sentinel-request-expires-at" "X-Sentinel-Request-Expires-At" request.headers)

  abbrev held :
      ToolCallRequest
      → ToolCallRequest
      → VirtualKey
      → Proxy
      → Option (Option ℕ)
      → Result GateError ApprovalRequest × Gate
  held request final_request key s expiry =
      hold_request world.gate_world fuel final_request (config_of world request key expiry)
        s.gate_state

  enforce_sends_none :
      (request final_request : ToolCallRequest) (key : VirtualKey) (s : Proxy)
      → (enforce_approval world fuel request final_request key s).1.upstream_calls
        ≡ s.upstream_calls
  unfolding enforce_approval ◌>>=◌
  enforce_sends_none request final_request key s = ground arith

  abbrev claim_after_hold :
      ToolCallRequest
      → VirtualKey
      → Proxy
      → Option (Option ℕ)
      → ApprovalRequest
      → Result Error Bool × Store
  claim_after_hold request key s expiry approval =
      claim_execution world.gate_world.env approval.id key.id
        (held request request key s expiry).1.approvals

  -- What the gate held for this request in `s` was approved, and its execution was claimed for the key in
  -- the store that the gate left; the claim left the store `after`.
  pub record Granted (request : ToolCallRequest) (key : VirtualKey) (s : Proxy) (after : Store)
      : Type 0 where
    pub expiry : Option (Option ℕ)
    pub valid : read_optional_expiry world (expiry_header request) ≡ ok expiry
    pub approval : ApprovalRequest
    pub returned : (held request request key s expiry).0 ≡ ok approval
    pub approved : is_approved approval.status ≡ true
    pub granted : (claim_after_hold request key s expiry approval).0 ≡ ok true
    pub written : after ≡ (claim_after_hold request key s expiry approval).1

  enforce-Granted :
      (request : ToolCallRequest) (key : VirtualKey) (s : Proxy)
      → (enforce_approval world fuel request request key s).0 ≡ ok tt
      → Granted request key s
          (enforce_approval world fuel request request key s).1.gate_state.approvals
  unfolding enforce_approval on_store ◌>>=◌
  enforce-Granted request key s h =
      elim (Result-cases (read_optional_expiry world (expiry_header request))) [
        | inr (e, invalid) ↦ absurd (ground arith)
        | inl (expiry, valid) ↦ elim (Result-cases (held request request key s expiry).0) [
          | inr (e, failed) ↦ absurd (ground arith)
          | inl (approval, returned) ↦ elim (Bool-cases (is_approved approval.status)) [
            | inr other ↦ absurd (ground arith)
            | inl approved ↦ record {
              expiry = expiry;
              valid = valid;
              approval = approval;
              returned = returned;
              approved = approved;
              granted = ground arith;
              written = ground (arith, valid, returned, approved);
            }
          ]
        ]
      ]

  forward_keeps :
      (request final_request : ToolCallRequest) (key : VirtualKey) (s : Proxy)
      → (forward world request final_request key s).1.gate_state ≡ s.gate_state
  unfolding forward finish ◌>>=◌
  forward_keeps request final_request key s = ground arith

  approval_admits :
      (request : ToolCallRequest) (key : VirtualKey) (s : Proxy)
      → ((decided_call world fuel request key require_approval s).1.upstream_calls
          ≡ s.upstream_calls)
        ⊎ Granted request key s
            (decided_call world fuel request key require_approval s).1.gate_state.approvals
  unfolding decided_call ◌>>=◌
  approval_admits request key s =
      elim (Result-cases (enforce_approval world fuel request request key s).0) [
        | inl (u, enforced) ↦ inr (
            let t = (enforce_approval world fuel request request key s).1 in
            rw enforced (
              subst (λ (g : Gate). Granted request key s g.approvals)
                {y = (forward world request request key t).1.gate_state}
                (sym (forward_keeps request request key t))
                (enforce-Granted request key s enforced)))
        | inr (e, refused) ↦ inl (ground (arith, refused, enforce_sends_none request request key s))
      ]

  -- Where the pipeline asks for an approval, the call reaches the upstream server only if what the gate held
  -- for this request was approved, and its execution was claimed for the caller's key in this run.
  pub handle_tool_call-Granted :
      (params : CallParams) (key : VirtualKey) (s t : Proxy) (u : Limiter)
      → resolve_virtual_key world (truthy (bearer_of (request_of params).headers)) s ≡ (ok key, t)
      → process world.clock world.added (request_of params) key t.limiter ≡ (ok require_approval, u)
      → ((handle_tool_call world fuel params s).1.upstream_calls ≡ t.upstream_calls)
        ⊎ Granted
            (request_of params)
            key
            (record t { limiter = u })
            (handle_tool_call world fuel params s).1.gate_state.approvals
  unfolding handle_tool_call ◌>>=◌
  handle_tool_call-Granted params key s t u resolved asked =
      rw (resolved, asked) (approval_admits (request_of params) key (record t { limiter = u }))

  -- A call that the pipeline denies throws, is logged, and does not reach the upstream server.
  pub handle_tool_call_denied :
      (params : CallParams) (key : VirtualKey) (s t : Proxy) (u : Limiter) (reason : String)
      → resolve_virtual_key world (truthy (bearer_of (request_of params).headers)) s ≡ (ok key, t)
      → process world.clock world.added (request_of params) key t.limiter ≡ (ok (deny reason), u)
      → handle_tool_call world fuel params s ≡ (
        err (denied reason),
        record t {
          limiter = u;
          audit = t.audit ++ denial world key (request_of params) reason ∷ [];
        },
      )
  unfolding handle_tool_call decided_call ◌>>=◌
  handle_tool_call_denied params key s t u reason resolved refused = rw (resolved, refused) refl
