-- ===== src/Shared/SafeFetch/Targets.antt =====
-- Where packages/shared/src/security/safeFetch.ts connects to: each target that it calls `fetch` for is one
-- that packages/shared/src/security/urlPolicy.ts permits, with at least one address.
use mcp_suite.Common.{suc, String, ◌≡◌, ◌<◌, ap, length, subst, refl, arith, [], ◌∷◌, All}
use mcp_suite.Effect.{Result, ok, err}
use mcp_suite.Shared.UrlPolicy.{Resolution, PolicyError, resolve_public_http_url}
use mcp_suite.Shared.UrlPolicy.Targets.{Permitted, resolve_public_http_url-Permitted}
use mcp_suite.Shared.SafeFetch.{
  FetchPlatform, ResolvedOptions, SafeFetchOptions, resolve_safe_fetch_options,
}
use mcp_suite.Shared.SafeFetch.Redirect.{resolve_fetch_target, fetch_policy, with_addresses}
use mcp_suite.Shared.SafeFetch.Loop.{Network, hops, safe_fetch_text}
use mcp_suite.Shared.SafeFetch.Hops.{calls}
use mcp_suite.Shared.SafeFetch.Start.{Run, refused, started, start_state, safe_fetch_text-Run}
use mcp_suite.Shared.SafeFetch.Steps.{run_hops-All}

module _ (platform : FetchPlatform) where
  -- What `fetch` is called for.
  pub record Pinned (options : ResolvedOptions) (target : Resolution) : Type 0 where
    pub permitted : Permitted platform.urls (fetch_policy options.policy) target
    pub some_address : 0 < length target.addresses

  same_target :
      (found target : Resolution)
      → with_addresses (ok found) ≡ ok target
      → (found ≡ target) × (0 < length target.addresses)
  same_target found target h =
      elim found.addresses
          as (λ xs. found.addresses ≡ xs → (found ≡ target) × (0 < length target.addresses)) [
            | [] ↦ λ absent. absurd (ground (arith, absent, h))
            | a ∷ rest ↦ λ present.
                let same : found ≡ target = ground (arith, present, h) in
                (same, subst (λ t. 0 < length t.addresses) same (rw present (omega arith)))
          ]
        refl

  pub addressed :
      (r : Result PolicyError Resolution) (target : Resolution)
      → with_addresses r ≡ ok target
      → (r ≡ ok target) × (0 < length target.addresses)
  addressed (err e) target h = absurd (ground arith)
  addressed (ok found) target h =
      let (same, some_address) = same_target found target h in (ap ok same, some_address)

  pub resolve_fetch_target-Pinned :
      (options : ResolvedOptions) (input : String) (target : Resolution)
      → resolve_fetch_target platform options input ≡ ok target
      → Pinned options target
  resolve_fetch_target-Pinned options input target h =
      let (found, some_address) =
        addressed
          (resolve_public_http_url platform.urls (fetch_policy options.policy) options.lookup input)
          target h in
      record {
        permitted =
            resolve_public_http_url-Permitted platform.urls (fetch_policy options.policy)
              options.lookup input target found;
        some_address = some_address;
      }

module _ (platform : FetchPlatform) (network : Network) where
  calls-Pinned :
      (options : SafeFetchOptions) (input : String) (resolved : ResolvedOptions)
      → resolve_safe_fetch_options options ≡ ok resolved
      → Run platform network options input
      → All
          (λ call. Pinned platform resolved call.target)
          (calls (safe_fetch_text platform network options input).1)
  calls-Pinned options input resolved h (refused e returned known) = rw returned tt
  calls-Pinned options input resolved h
        (started own request target resolves built targeted returned) =
      let same : own ≡ resolved = ground arith in
      rw returned (
        subst
          (λ o.
            All (λ call. Pinned platform o call.target)
              (calls (hops platform network own target (start_state request)).1.events))
          same
          (run_hops-All platform network own (λ t r. Pinned platform own t)
            (λ t next before after m p.
              resolve_fetch_target-Pinned platform own m.url.text next m.targeted)
            (suc (suc own.max_redirects)) target 0 (start_state request)
            (resolve_fetch_target-Pinned platform own input target targeted) tt))

  -- Every call of the network, that of a redirect as well, is for a target that the policy of the
  -- options permits, and is pinned to at least one address.
  pub safe_fetch_text-Pinned :
      (options : SafeFetchOptions) (input : String) (resolved : ResolvedOptions)
      → resolve_safe_fetch_options options ≡ ok resolved
      → All
          (λ call. Pinned platform resolved call.target)
          (calls (safe_fetch_text platform network options input).1)
  safe_fetch_text-Pinned options input resolved h =
      calls-Pinned options input resolved h (safe_fetch_text-Run platform network options input)
