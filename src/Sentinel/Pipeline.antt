-- ===== src/Sentinel/Pipeline.antt =====
-- packages/sentinel/src/proxy/RequestPipeline.ts, packages/sentinel/src/proxy/ResponsePipeline.ts and
-- packages/sentinel/src/policy/PolicyEngine.ts: what decides on a request, and what a response passes.
pub mod Glob
pub mod RateLimit
pub mod Decisions
mod Examples
use Prim.Native.Char.{code}
use Prim.Native.String.{◌++◌ as ◌<>◌}
use mcp_suite.Common.{
  ℕ, ◌+◌, ◌-◌, String, Bool, true, false, not, ◌&&◌, ◌||◌, Option, none, some, List, [], ◌∷◌, ◌++◌,
  ltb, leb, length, keep_if, any, if◌then◌else◌, or_else, ◌==◌,
}
use mcp_suite.Effect.{Result, ok, err, Exec, pure, raise, ◌>>=◌}
use mcp_suite.Sentinel.Request.{ToolCallRequest}
use mcp_suite.Sentinel.Keys.{VirtualKey}

pub data Decision : Type 0 where
  allow transform : ToolCallRequest → Decision
  deny : String → Decision
  require_approval : Decision

-- The times of a key's requests that RateLimitMiddleware keeps, and how often `Date.now` was called.
pub record Limiter : Type 0 where
  pub request_times : String → Option (List ℕ)
  pub clock_reads : ℕ

-- A middleware may read and write the state of the process, and throw a text.
abbrev pub PipelineAction : Type 0 → Type 0
PipelineAction A = Exec Limiter String A

abbrev pub RequestMiddleware : Type 0
RequestMiddleware = ToolCallRequest → VirtualKey → PipelineAction (Option Decision)

abbrev pub is_star : ℕ → Bool
is_star c = leb 42 c && leb c 42

-- `.` of a regular expression matches every character but these.
abbrev pub is_line_terminator : ℕ → Bool
is_line_terminator c = leb 10 c && leb c 10 || leb 13 c && leb c 13 || leb 8232 c && leb c 8233

abbrev pub same_char : ℕ → ℕ → Bool
same_char c d = leb c d && leb d c

-- `.*` before the rest of the expression.
unfoldable pub after_star : (String → Bool) → String → Bool
after_star rest String.[] = rest ""
after_star rest (String.◌∷◌ c value) =
    let later = after_star rest value in
    rest (String.◌∷◌ c value) || (not (is_line_terminator (code c)) && later)

abbrev pub after_char : ℕ → (String → Bool) → String → Bool
after_char c rest String.[] = false
after_char c rest (String.◌∷◌ d value) = same_char c (code d) && rest value

-- `globMatches`: the whole value matches the pattern, where `*` is `.*` and any other character is itself.
unfoldable pub glob_matches : String → String → Bool
glob_matches String.[] value = value == ""
glob_matches (String.◌∷◌ c pattern) value =
    if is_star (code c)
    then after_star (glob_matches pattern) value
    else after_char (code c) (glob_matches pattern) value

abbrev pub is_allowed : VirtualKey → String → Bool
is_allowed key tool = any (λ pattern. glob_matches pattern tool) (or_else key.allowed_tools [])

abbrev pub not_allowed : String → Decision
not_allowed tool = deny ("Tool \"" <> tool <> "\" is not allowed for this key")

unfoldable pub allowlist : RequestMiddleware
allowlist req key =
    if is_allowed key req.tool then pure none else pure (some (not_allowed req.tool))

abbrev pub set_times : String → List ℕ → (String → Option (List ℕ)) → String → Option (List ℕ)
set_times id times old k = if id == k then some times else old k

abbrev pub rate_exceeded : String → Decision
rate_exceeded id = deny ("Rate limit exceeded for key \"" <> id <> "\"")

-- The times within the last minute. `now - 60_000` is below every time where `now` is less than that.
abbrev pub recent_times : ℕ → List ℕ → List ℕ
recent_times now times = keep_if (λ t. leb (now - 60000) t) times

unfoldable pub limited : String → ℕ → ℕ → PipelineAction (Option Decision)
limited id limit now s =
    let recent = recent_times now (or_else (s.request_times id) []) in
    if leb limit (length recent)
    then (
      ok (some (rate_exceeded id)),
      record s { request_times = set_times id recent s.request_times },
    )
    else (ok none, record s { request_times = set_times id (recent ++ now ∷ []) s.request_times })

unfoldable pub run_middlewares :
    ToolCallRequest → VirtualKey → List RequestMiddleware → PipelineAction Decision
run_middlewares req key [] = pure (allow req)
run_middlewares req key (middleware ∷ rest) = do
  decision ← middleware req key
  elim decision [ some d ↦ pure d | none ↦ run_middlewares req key rest ]

module _ (clock : ℕ → ℕ) where
  unfoldable pub now : PipelineAction ℕ
  now s = (ok (clock s.clock_reads), record s { clock_reads = s.clock_reads + 1 })

  -- `limit` is missing or 0: no limit.
  abbrev pub with_limit : String → Option ℕ → PipelineAction (Option Decision)
  with_limit id none = pure none
  with_limit id (some limit) = if leb limit 0 then pure none else (now >>= limited id limit)

  unfoldable pub rate_limit : RequestMiddleware
  rate_limit req key = with_limit key.id key.rate_limit

  -- `process`, where `use` added these middlewares.
  unfoldable pub process :
      List RequestMiddleware → ToolCallRequest → VirtualKey → PipelineAction Decision
  process added req key = run_middlewares req key (allowlist ∷ rate_limit ∷ added)

-- `Decision["action"]`
pub data PolicyAction : Type 0 where
  allows transforms denies requires_approval : PolicyAction

pub record PolicyRule : Type 0 where
  pub name : String
  pub applies : ToolCallRequest → VirtualKey → Bool
  pub action : PolicyAction
  pub reason : Option String

abbrev pub decision_of : PolicyRule → ToolCallRequest → PolicyAction → Decision
decision_of rule request denies =
    deny (or_else rule.reason ("Policy \"" <> rule.name <> "\" denied request"))
decision_of rule request transforms = transform request
decision_of rule request requires_approval = require_approval
decision_of rule request allows = allow request

unfoldable pub evaluate : List PolicyRule → ToolCallRequest → VirtualKey → Option Decision
evaluate [] request key = none
evaluate (rule ∷ rules) request key =
    if not (rule.applies request key)
    then evaluate rules request key
    else some (decision_of rule request rule.action)

-- `ResponsePipeline.process`: each middleware takes what the one before it made.
unfoldable pub pass_response {ℓ} :
    {A S E : Type ℓ} → List (A → VirtualKey → Exec S E A) → A → VirtualKey → Exec S E A
pass_response [] response key = pure response
pass_response (middleware ∷ rest) response key = do
  current ← middleware response key
  pass_response rest current key
