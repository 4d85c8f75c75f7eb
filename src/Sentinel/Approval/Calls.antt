-- ===== src/Sentinel/Approval/Calls.antt =====
-- Histories of an ApprovalStore: sequences of calls of the public methods of
-- packages/sentinel/src/approval/ApprovalStore.ts, from any number of callers.
use mcp_suite.Common.{String, Bool, Option, List, [], ◌∷◌}
use mcp_suite.Effect.Respects.{Preorder, Kept, Kept-preorder}
use mcp_suite.Sentinel.Approval.Model.{
  ApprovalStatus, ApprovalDecision, CreateApprovalRequest, Store, Env,
}
use mcp_suite.Sentinel.Approval.Create.{create_or_reuse}
use mcp_suite.Sentinel.Approval.Dispatch.{record_dispatch, record_dispatch_failure}
use mcp_suite.Sentinel.Approval.Decide.{decide, cancel}
use mcp_suite.Sentinel.Approval.Claim.{claim_execution}
use mcp_suite.Sentinel.Approval.Expiry.{expire, expire_due}
use mcp_suite.Sentinel.Approval.Read.{get, list}
use mcp_suite.Sentinel.Approval.Evolution.{Evolves, Evolves-preorder}
use mcp_suite.Sentinel.Approval.Evolution.Statements.{Evolves-steps}
use mcp_suite.Sentinel.Approval.Audit.{IsAudited}
use mcp_suite.Sentinel.Approval.Audit.Statements.{Audits-steps}
use mcp_suite.Sentinel.Approval.Methods.{Steps}
use mcp_suite.Sentinel.Approval.Methods

pub data Call : Type 0 where
  creates : CreateApprovalRequest → String → Call
  dispatches : String → String → Call
  dispatch_fails : String → String → String → Call
  decides : String → String → ApprovalDecision → Option String → Call
  claims : String → String → Call
  cancels : String → String → Option String → Call
  expires : String → Bool → Call
  gets : String → Bool → Call
  lists : Option ApprovalStatus → Call
  expires_due : Call

module _ (env : Env) where
  -- The state that a call leaves, whether it returns or throws.
  unfoldable pub step : Store → Call → Store
  step s (creates input raw) = (create_or_reuse env input raw s).1
  step s (dispatches id channel) = (record_dispatch env id channel s).1
  step s (dispatch_fails id channel reason) = (record_dispatch_failure env id channel reason s).1
  step s (decides raw principal decision reason) = (decide env raw principal decision reason s).1
  step s (claims id principal) = (claim_execution env id principal s).1
  step s (cancels id principal reason) = (cancel env id principal reason s).1
  step s (expires id fail_open) = (expire env id fail_open s).1
  step s (gets id expire_first) = (get env id expire_first s).1
  step s (lists status) = (list env status s).1
  step s expires_due = (expire_due env s).1

  unfoldable pub run : Store → List Call → Store
  unfolding step
  run s [] = s
  run s (call ∷ calls) = run (step s call) calls

module _ (env : Env) (R : Store → Store → Type 0) ⦃o : Preorder R⦄ ⦃given : Steps env R⦄ where
  step-Respects : (s : Store) (call : Call) → R s (step env s call)
  unfolding step
  step-Respects s (creates input raw) =
      (Methods.create_or_reuse-Respects env {R = R} input raw).at s
  step-Respects s (dispatches id channel) =
      (Methods.record_dispatch-Respects env {R = R} id channel).at s
  step-Respects s (dispatch_fails id channel reason) =
      (Methods.record_dispatch_failure-Respects env {R = R} id channel reason).at s
  step-Respects s (decides raw principal decision reason) =
      (Methods.decide-Respects env {R = R} raw principal decision reason).at s
  step-Respects s (claims id principal) =
      (Methods.claim_execution-Respects env {R = R} id principal).at s
  step-Respects s (cancels id principal reason) =
      (Methods.cancel-Respects env {R = R} id principal reason).at s
  step-Respects s (expires id fail_open) = (Methods.expire-Respects env {R = R} id fail_open).at s
  step-Respects s (gets id expire_first) = (Methods.get-Respects env {R = R} id expire_first).at s
  step-Respects s (lists status) = (Methods.list-Respects env {R = R} status).at s
  step-Respects s expires_due = (Methods.expire_due-Respects env {R = R}).at s

  pub run-Respects : (s : Store) (calls : List Call) → R s (run env s calls)
  unfolding run
  run-Respects s [] = o.same s
  run-Respects s (call ∷ calls) =
      o.step s (step env s call) _ (step-Respects s call) (run-Respects (step env s call) calls)

module _ (env : Env) where
  -- Whatever calls are made, successful or not, no row is lost, a request keeps its identity columns,
  -- a request that is not pending keeps its outcome, a claimed one its claim, a capability keeps what
  -- it is for and stays used once it is, and the event log only grows at its end.
  pub run-Evolves : (s : Store) (calls : List Call) → Evolves s (run env s calls)
  run-Evolves s calls = run-Respects env Evolves ⦃given = Evolves-steps env⦄ s calls

  -- Whatever calls are made, the event log stays in step with the requests.
  pub run-IsAudited : (s : Store) (calls : List Call) → IsAudited s → IsAudited (run env s calls)
  run-IsAudited s calls =
      (run-Respects env (Kept IsAudited) ⦃given = Audits-steps env⦄ s calls).keep
