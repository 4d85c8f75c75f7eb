-- ===== src/Sentinel/Redaction/Limits.antt =====
-- How long a request is that packages/sentinel/src/audit/AuditRedactor.ts hands on.
use mcp_suite.Common.{
  ℕ, zero, suc, ◌/◌, ◌≤◌, ◌<◌, String, ◌≡◌, refl, arith, Bool, true, false, leb→le, Bool-cases, inl,
  inr,
}
use mcp_suite.Effect.{Result, ok}
use mcp_suite.Sentinel.Request.{ToolCallRequest}
use mcp_suite.Sentinel.Redaction.{
  AuditRedactor, RedactionPlatform, RedactionError, SanitizedAuditRequest,
}
use mcp_suite.Sentinel.Redaction.Methods.{
  audited, fits, serialize, sanitized, summarize, summary, sanitize_request, limit_size,
  first_budget,
}

module _ (platform : RedactionPlatform) (redactor : AuditRedactor) where
  -- A request comes back, printed, in at most the bytes that are allowed.
  pub record Within (outcome : Result RedactionError SanitizedAuditRequest) : Type 0 where
    pub result : SanitizedAuditRequest
    pub returned : outcome ≡ ok result
    pub printed : result.serialized ≡ serialize platform redactor result.request
    pub short : platform.utf8_length result.serialized ≤ redactor.max_request_bytes

  audited-Within :
      (request : ToolCallRequest) (truncated : Bool)
      → fits platform redactor request ≡ true
      → Within (ok (audited platform redactor request truncated))
  audited-Within request truncated h = record {
    result = audited platform redactor request truncated;
    returned = refl;
    printed = refl;
    short =
        leb→le (platform.utf8_length (serialize platform redactor request))
          redactor.max_request_bytes h;
  }

  halved : (b : ℕ) → suc b / 2 ≤ b
  halved b = omega arith

  summarize-Within :
      (fuel : ℕ) (tool : String) (budget : ℕ)
      → budget < fuel
      → fits platform redactor (summary platform redactor tool 0) ≡ true
      → Within (summarize platform redactor fuel tool budget)
  unfolding summarize
  summarize-Within zero tool budget enough h = absurd (omega arith)
  summarize-Within (suc fuel) tool zero enough h =
      rw h (audited-Within (summary platform redactor tool 0) true h)
  summarize-Within (suc fuel) tool (suc b) enough h =
      elim (Bool-cases (fits platform redactor (summary platform redactor tool (suc b)))) [
        | inl room ↦ rw room (audited-Within (summary platform redactor tool (suc b)) true room)
        | inr full ↦
            rw full (summarize-Within fuel tool (suc b / 2) (omega (arith, halved b, enough)) h)
      ]

  -- Where the summary without a tool fits, every request comes back within the limit, cut where it must
  -- be: nothing is thrown, and the halving of the budget ends.
  pub sanitize_request-Within :
      (request : ToolCallRequest)
      → fits platform redactor (summary platform redactor "" 0) ≡ true
      → Within (sanitize_request platform redactor request)
  unfolding sanitize_request limit_size summary
  sanitize_request-Within request h =
      elim (Bool-cases (fits platform redactor (sanitized platform redactor request))) [
        | inl room ↦ rw room (audited-Within (sanitized platform redactor request) false room)
        | inr full ↦ rw full (
            summarize-Within (suc (first_budget platform redactor))
              (sanitized platform redactor request).tool (first_budget platform redactor)
              (omega arith) h)
      ]
