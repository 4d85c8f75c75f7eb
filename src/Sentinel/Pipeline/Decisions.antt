-- ===== src/Sentinel/Pipeline/Decisions.antt =====
-- What the request pipeline and the policy engine decide: packages/sentinel/src/proxy/RequestPipeline.ts
-- and packages/sentinel/src/policy/PolicyEngine.ts.
use mcp_suite.Common.{
  ℕ, ◌≡◌, ltb, leb, ◌||◌, ◌↔◌, length, or_else, Option-cases, inl, inr, refl, Bool, true, false,
  none, some, List, [], ◌∷◌, ◌++◌, arith, All,
}
use mcp_suite.Effect.{ok, ◌>>=◌}
use mcp_suite.Sentinel.Request.{ToolCallRequest}
use mcp_suite.Sentinel.Keys.{VirtualKey}
use mcp_suite.Sentinel.Pipeline.{
  allow, Limiter, RequestMiddleware, PolicyRule, is_allowed, not_allowed, recent_times, rate_limit,
  limited, now, allowlist, run_middlewares, process, evaluate, decision_of,
}

-- A tool that no pattern of the key allows is denied by every pipeline, whatever middlewares were
-- added, and the request does not count against the rate limit.
pub process_denies :
    (clock : ℕ → ℕ) (added : List RequestMiddleware) (req : ToolCallRequest) (key : VirtualKey)
    (s : Limiter)
    → is_allowed key req.tool ≡ false
    → process clock added req key s ≡ (ok (not_allowed req.tool), s)
unfolding process run_middlewares allowlist ◌>>=◌
process_denies clock added req key s outside = rw outside refl

-- The rate limit of the key leaves room for a request at this time. A limit of 0 is none.
abbrev pub has_room : VirtualKey → ℕ → Limiter → Bool
has_room key at s = elim key.rate_limit [
  | none ↦ true
  | some limit ↦
      leb limit 0 || ltb (length (recent_times at (or_else (s.request_times key.id) []))) limit
]

room_passes :
    (clock : ℕ → ℕ) (req : ToolCallRequest) (key : VirtualKey) (s : Limiter)
    → is_allowed key req.tool ≡ true
    → has_room key (clock s.clock_reads) s ≡ true
    → (process clock [] req key s).0 ≡ ok (allow req)
unfolding process run_middlewares allowlist rate_limit limited now ◌>>=◌
room_passes clock req key s inside room = elim (Option-cases key.rate_limit) [
  | inl unlimited ↦ ground arith
  | inr (limit, e) ↦ ground arith
]

passed_room :
    (clock : ℕ → ℕ) (req : ToolCallRequest) (key : VirtualKey) (s : Limiter)
    → (process clock [] req key s).0 ≡ ok (allow req)
    → (is_allowed key req.tool ≡ true) × (has_room key (clock s.clock_reads) s ≡ true)
unfolding process run_middlewares allowlist rate_limit limited now ◌>>=◌
passed_room clock req key s h = elim (Option-cases key.rate_limit) [
  | inl unlimited ↦ ground arith
  | inr (limit, e) ↦ ground arith
]

-- Without added middlewares, a request is allowed exactly when a pattern of its key allows the tool
-- and the key's rate limit leaves room at the time that the clock then shows.
pub process_iff :
    (clock : ℕ → ℕ) (req : ToolCallRequest) (key : VirtualKey) (s : Limiter)
    → ((process clock [] req key s).0 ≡ ok (allow req))
      ↔ ((is_allowed key req.tool ≡ true) × (has_room key (clock s.clock_reads) s ≡ true))
process_iff clock req key s =
    (passed_room clock req key s, λ h. room_passes clock req key s h.0 h.1)

-- The first rule that applies decides: the rules before it do not apply, those after it are not asked.
pub evaluate_first :
    (before after : List PolicyRule) (rule : PolicyRule) (req : ToolCallRequest) (key : VirtualKey)
    → All (λ r. r.applies req key ≡ false) before
    → rule.applies req key ≡ true
    → evaluate (before ++ rule ∷ after) req key ≡ some (decision_of rule req rule.action)
unfolding evaluate
evaluate_first [] after rule req key idle applies = rw applies refl
evaluate_first (r ∷ before) after rule req key idle applies =
    ground (arith, evaluate_first before after rule req key)
