-- ===== src/Shared/UrlPolicy/Targets.antt =====
-- What packages/shared/src/security/urlPolicy.ts lets through: the targets and their addresses.
use mcp_suite.Common.{
  String, ◌≡◌, ap, subst, true, false, ◌&&◌, Option, some, List, arith, All, or_else, is_empty,
  Bool-cases, Option-cases, inl, inr, ◌⊎◌, ◌==◌, ◌∙◌, sym,
}
use mcp_suite.Effect.{ok, Result-cases}
use mcp_suite.Shared.Url.{Url, UrlPlatform}
use mcp_suite.Shared.UrlPolicy.{
  UrlPolicyOptions, Resolution, normalize_hostname, is_trusted, is_localhost, passes_allowlist,
  addresses_of, check_url, resolve_parsed, resolve_public_http_url,
}
use mcp_suite.Shared.UrlPolicy.Addresses.{Unreserved, addresses_of-Unreserved}

module _ (platform : UrlPlatform) where
  -- What the policy asks of a URL before it resolves the host.
  pub record Checked (options : UrlPolicyOptions) (url : Url) (hostname : String) : Type 0 where
    pub normalized : hostname ≡ normalize_hostname platform url.hostname
    pub secure :
        ((url.protocol == "https:") ≡ true)
        ⊎ ((or_else options.require_https true ≡ false) × ((url.protocol == "http:") ≡ true))
    pub anonymous : (is_empty url.username && is_empty url.password) ≡ true
    pub named : is_empty hostname ≡ false
    pub listed : passes_allowlist platform hostname options.allowed_hosts ≡ true
    pub remote : is_localhost platform hostname ≡ false

  check_url-Checked :
      (options : UrlPolicyOptions) (url : Url) (hostname : String)
      → check_url platform options url ≡ ok hostname
      → Checked options url hostname
  unfolding check_url
  check_url-Checked options url hostname h =
      let same : normalize_hostname platform url.hostname ≡ hostname = ground arith in
      record {
        normalized = sym same;
        secure = ground arith;
        anonymous = ground arith;
        named = subst (λ t. is_empty t ≡ false) same (ground arith);
        listed =
            subst (λ t. passes_allowlist platform t options.allowed_hosts ≡ true) same
              (ground arith);
        remote = subst (λ t. is_localhost platform t ≡ false) same (ground arith);
      }

  -- What it promises of the URL and the addresses that it returns.
  pub record Permitted (options : UrlPolicyOptions) (r : Resolution) : Type 0 where
    pub checked : Checked options r.url r.hostname
    pub unreserved :
        (is_trusted platform options r.hostname ≡ true) ⊎ All (Unreserved platform) r.addresses

  resolve_parsed-Permitted :
      (options : UrlPolicyOptions) (lookup : String → Option (List String)) (url : Url)
      (r : Resolution)
      → resolve_parsed platform options lookup url ≡ ok r
      → Permitted options r
  unfolding resolve_parsed
  resolve_parsed-Permitted options lookup url r h =
      elim (Result-cases (check_url platform options url)) [
        | inr (e, refused) ↦ absurd (ground (arith, refused, h))
        | inl (hostname, checked) ↦
            elim (Result-cases (addresses_of platform options lookup url hostname)) [
              | inr (e, refused) ↦ absurd (ground (arith, checked, refused, h))
              | inl (addresses, found) ↦
                  subst (Permitted options)
                    {x = record { url = url; hostname = hostname; addresses = addresses }}
                    (ground (arith, checked, found, h))
                    (record {
                      checked = check_url-Checked options url hostname checked;
                      unreserved = elim (Bool-cases (is_trusted platform options hostname)) [
                        | inl trusted ↦ inl trusted
                        | inr untrusted ↦ inr (
                            addresses_of-Unreserved platform options lookup url hostname addresses
                              untrusted found)
                      ];
                    })
            ]
      ]

  -- A URL that the policy lets through has the scheme, the host and the addresses that the options ask
  -- for: no credentials, no local host, HTTPS unless it is switched off, a host of the allowlist where
  -- there is one, and, unless the host is trusted, only addresses outside the reserved ranges of IPv4 and
  -- IPv6, where an IPv4 address in an IPv6 one is looked at in the spelling that starts with ::ffff: only.
  pub resolve_public_http_url-Permitted :
      (options : UrlPolicyOptions) (lookup : String → Option (List String)) (input : String)
      (r : Resolution)
      → resolve_public_http_url platform options lookup input ≡ ok r
      → Permitted options r
  unfolding resolve_public_http_url
  resolve_public_http_url-Permitted options lookup input r h =
      elim (Option-cases (platform.parse_url input)) [
        | inl invalid ↦ absurd (ground (arith, invalid, h))
        | inr (url, parsed) ↦
            resolve_parsed-Permitted options lookup url r (ground (arith, parsed, h))
      ]

  -- The URL that comes back is the parsed input.
  pub url-resolve_public_http_url :
      (options : UrlPolicyOptions) (lookup : String → Option (List String)) (input : String)
      (r : Resolution)
      → resolve_public_http_url platform options lookup input ≡ ok r
      → platform.parse_url input ≡ some r.url
  unfolding resolve_public_http_url resolve_parsed
  url-resolve_public_http_url options lookup input r h =
      elim (Option-cases (platform.parse_url input)) [
        | inl invalid ↦ absurd (ground (arith, invalid, h))
        | inr (url, parsed) ↦ elim (Result-cases (check_url platform options url)) [
          | inr (e, refused) ↦ absurd (ground (arith, parsed, refused, h))
          | inl (hostname, checked) ↦
              elim (Result-cases (addresses_of platform options lookup url hostname)) [
                | inr (e, refused) ↦ absurd (ground (arith, parsed, checked, refused, h))
                | inl (addresses, found) ↦
                    parsed ∙ ap some (ground (arith, parsed, checked, found, h))
              ]
        ]
      ]
