-- ===== src/Shared/SafeFetch/Credentials.antt =====
-- Which headers packages/shared/src/security/safeFetch.ts sends to another origin than the first one.
use mcp_suite.Common.{
  ℕ, suc, String, ◌≡◌, refl, sym, ◌∙◌, ap, subst, Bool, true, false, not, some, List, [], ◌∷◌, All,
  keep_if, if◌then◌else◌, ◌==◌, eq_iff, or_else, ◌⊎◌, inl, inr, Bool-cases,
}
use mcp_suite.Effect.{ok}
use mcp_suite.Shared.Url.{Url}
use mcp_suite.Shared.UrlPolicy.{Resolution, resolve_public_http_url}
use mcp_suite.Shared.UrlPolicy.Targets.{url-resolve_public_http_url}
use mcp_suite.Shared.SafeFetch.{
  FetchPlatform, ResolvedOptions, RequestState, SafeFetchOptions, Header, is_sensitive, is_entity,
  without_cross_origin_credentials, without_entity_headers,
}
use mcp_suite.Shared.SafeFetch.Redirect.{
  resolve_fetch_target, fetch_policy, rewrite_method, rewrites_to_get, drop_credentials,
}
use mcp_suite.Shared.SafeFetch.Loop.{Network, safe_fetch_text}
use mcp_suite.Shared.SafeFetch.Hops.{calls}
use mcp_suite.Shared.SafeFetch.Start.{Run, refused, started, start_state, safe_fetch_text-Run}
use mcp_suite.Shared.SafeFetch.Targets.{addressed}
use mcp_suite.Shared.SafeFetch.Steps.{Moved, kept_headers, run_hops-All}

All-keep_if {ℓ κ} :
    {A : Type ℓ} (P : A → Type κ) (test : A → Bool) (xs : List A)
    → All P xs
    → All P (keep_if test xs)
All-keep_if P test [] h = tt
All-keep_if P test (x ∷ xs) h = elim (Bool-cases (test x)) [
  | inl kept ↦ rw kept (h.0, All-keep_if P test xs h.1)
  | inr dropped ↦ rw dropped (All-keep_if P test xs h.1)
]

All-if {ℓ} :
    {A : Type ℓ} (test : A → Bool) (x : A) (xs : List A) (b : Bool)
    → test x ≡ b
    → All (λ y. test y ≡ true) xs
    → All (λ y. test y ≡ true) (if b then x ∷ xs else xs)
All-if test x xs true kept h = (kept, h)
All-if test x xs false dropped h = h

keep_if-All {ℓ} :
    {A : Type ℓ} (test : A → Bool) (xs : List A) → All (λ x. test x ≡ true) (keep_if test xs)
keep_if-All test [] = tt
keep_if-All test (x ∷ xs) = All-if test x (keep_if test xs) (test x) refl (keep_if-All test xs)

module _ (platform : FetchPlatform) where
  abbrev pub Clean : List Header → Type 0
  Clean headers = All (λ header. not (is_sensitive platform header) ≡ true) headers

  -- A request to another origin than this one has no credentials.
  abbrev pub Guarded : String → Resolution → RequestState → Type 0
  Guarded origin target request = ((target.url.origin == origin) ≡ true) ⊎ Clean request.headers

  rewrite-Clean :
      (status : ℕ) (request : RequestState)
      → Clean request.headers
      → Clean (rewrite_method platform status request).headers
  unfolding without_entity_headers
  rewrite-Clean status request h = elim (Bool-cases (rewrites_to_get status request.method)) [
    | inl rewritten ↦ rw rewritten (
        All-keep_if (λ header. not (is_sensitive platform header) ≡ true)
          (λ header. not (is_entity platform header)) request.headers h)
    | inr left ↦ rw left h
  ]

  -- A URL that was resolved and is parsed again keeps its origin: the parser reads what it printed.
  unfoldable pub KeepsOrigins : Type 0
  KeepsOrigins =
      (location : String) (base url again : Url)
      → platform.urls.resolve_url location base ≡ some url
      → platform.urls.parse_url url.text ≡ some again
      → again.origin ≡ url.origin

  cleaned : (request : RequestState) → Clean (drop_credentials platform request).headers
  unfolding without_cross_origin_credentials
  cleaned request = keep_if-All (λ header. not (is_sensitive platform header)) request.headers

  next_origin :
      KeepsOrigins
      → (options : ResolvedOptions) (location : String) (base url : Url) (next : Resolution)
      → platform.urls.resolve_url location base ≡ some url
      → resolve_fetch_target platform options url.text ≡ ok next
      → next.url.origin ≡ url.origin
  unfolding KeepsOrigins
  next_origin keeps options location base url next located targeted =
      let (found, some_address) =
        addressed platform
          (resolve_public_http_url platform.urls (fetch_policy options.policy) options.lookup
            url.text)
          next targeted in
      keeps location base url next.url located (
        url-resolve_public_http_url platform.urls (fetch_policy options.policy) options.lookup
          url.text next found)

  step-Guarded :
      KeepsOrigins
      → (origin : String) (options : ResolvedOptions) (target next : Resolution)
        (before after : RequestState)
      → Moved platform options target before next after
      → Guarded origin target before
      → Guarded origin next after
  step-Guarded keeps origin options target next before after m g =
      let origin_of =
        next_origin keeps options m.location target.url m.url next m.located m.targeted in
      elim (Bool-cases (m.url.origin == target.url.origin)) [
        | inr crossed ↦ inr (
            subst (λ r. Clean r.headers)
              (sym (
                m.rewritten
                ∙ ap (λ b. rewrite_method platform m.status (kept_headers platform (not b) before))
                    crossed))
              (rewrite-Clean m.status (drop_credentials platform before) (cleaned before)))
        | inl stayed ↦ elim g [
          | inl home ↦ inl (
              subst (λ o. (o == origin) ≡ true)
                (sym (origin_of ∙ (eq_iff m.url.origin target.url.origin).0 stayed)) home)
          | inr clean ↦ inr (
              subst (λ r. Clean r.headers)
                (sym (
                  m.rewritten
                  ∙ ap
                      (λ b. rewrite_method platform m.status (kept_headers platform (not b) before))
                      stayed))
                (rewrite-Clean m.status before clean))
        ]
      ]

module _ (platform : FetchPlatform) (network : Network) where
  calls-Guarded :
      (options : SafeFetchOptions) (input : String) (url : Url)
      → KeepsOrigins platform
      → platform.urls.parse_url input ≡ some url
      → Run platform network options input
      → All
          (λ call. Guarded platform url.origin call.target call.request)
          (calls (safe_fetch_text platform network options input).1)
  calls-Guarded options input url keeps parsed (refused e returned known) = rw returned tt
  calls-Guarded options input url keeps parsed
        (started resolved request target resolves built targeted returned) =
      let (found, some_address) =
        addressed platform
          (resolve_public_http_url platform.urls (fetch_policy resolved.policy) resolved.lookup
            input)
          target targeted in
      let same : url ≡ target.url =
        ap (λ o. or_else o url)
          (sym parsed
            ∙ url-resolve_public_http_url platform.urls (fetch_policy resolved.policy)
                resolved.lookup input target found) in
      rw returned (
        run_hops-All platform network resolved (Guarded platform url.origin)
          (step-Guarded platform keeps url.origin resolved) (suc (suc resolved.max_redirects))
          target 0 (start_state request)
          (inl ((eq_iff target.url.origin url.origin).1 (ap (λ u. u.origin) (sym same)))) tt)

  -- A call for another origin than that of the input carries none of the headers that the source takes
  -- for credentials, however many redirects lead there.
  pub safe_fetch_text-Guarded :
      (options : SafeFetchOptions) (input : String) (url : Url)
      → KeepsOrigins platform
      → platform.urls.parse_url input ≡ some url
      → All
          (λ call. Guarded platform url.origin call.target call.request)
          (calls (safe_fetch_text platform network options input).1)
  safe_fetch_text-Guarded options input url keeps parsed =
      calls-Guarded options input url keeps parsed
        (safe_fetch_text-Run platform network options input)
