-- ===== src/Shared/UrlPolicy.antt =====
-- `resolvePublicHttpUrl` of packages/shared/src/security/urlPolicy.ts: the addresses at which a URL may be
-- fetched. `label` only goes into messages, which are left out.
pub mod Subnets
pub mod Ranges
pub mod Addresses
pub mod Targets
pub mod Fuel
pub mod Examples
use Prim.Native.String.{◌++◌ as ◌<>◌}
use mcp_suite.Common.{
  ℕ, zero, suc, String, Bool, true, false, not, ◌&&◌, ◌||◌, Option, none, some, List, [], ◌∷◌, ◌++◌,
  map, length, leb, if◌then◌else◌, or_else, is_some, is_empty, trim, utf16_length, without_prefix,
  without_first, without_last, before_char, any, ends_with, contains, ◌==◌,
}
use mcp_suite.Effect.{Result, ok, err}
use mcp_suite.Shared.Url.{Url, UrlPlatform, IpAddress, ipv4, ipv6}
use mcp_suite.Shared.UrlPolicy.Subnets.{blocks_ipv4, blocks_ipv6}

pub record DnsAddress : Type 0 where
  pub address : String
  pub family : ℕ

-- What is absent is `none`. A resolver that throws gives `none`.
pub record UrlPolicyOptions : Type 0 where
  pub allowed_hosts : Option (List String)
  pub require_https : Option Bool
  pub resolve_dns : Option Bool
  pub trusted_private_hosts : Option (List String)

pub record Resolution : Type 0 where
  pub url : Url
  pub hostname : String
  pub addresses : List DnsAddress

-- Each `UrlPolicyError`, by its message. `out_of_fuel` is no error of the source.
pub data PolicyError : Type 0 where
  invalid_url scheme_not_allowed https_required credentials host_required : PolicyError
  host_not_allowed localhost unresolved no_address : PolicyError
  reserved_ipv4 reserved_ipv6 not_an_address out_of_fuel : PolicyError

abbrev pub after {ℓ} :
    {A B : Type ℓ} → Result PolicyError A → (A → Result PolicyError B) → Result PolicyError B
after (ok a) f = f a
after (err e) f = err e

-- `normalizeHostname`: 91 and 93 are the brackets, 37 is the percent sign.
unfoldable pub normalize_hostname : UrlPlatform → String → String
normalize_hostname platform hostname =
    platform.to_lower_case (before_char 37 (without_last 93 (without_first 91 (trim hostname))))

abbrev pub mapped_prefix : String
mapped_prefix = "::ffff:"

abbrev pub dns_address : String → ℕ → DnsAddress
dns_address address family = record { address = address; family = family }

module _ (platform : UrlPlatform) where
  abbrev pub validated_ipv4 : Bool → String → ℕ → Result PolicyError DnsAddress
  validated_ipv4 trusted normalized n =
      if not trusted && blocks_ipv4 n then err reserved_ipv4 else ok (dns_address normalized 4)

  abbrev pub validated_ipv6 : Bool → String → ℕ → Result PolicyError DnsAddress
  validated_ipv6 trusted lower n =
      if not trusted && blocks_ipv6 n then err reserved_ipv6 else ok (dns_address lower 6)

  -- The number that `BlockList` reads in the lower-case text of an IPv6 address.
  abbrev pub ipv6_number : String → ℕ → ℕ
  ipv6_number lower n = elim (platform.parse_ip lower) [ some (ipv6 m) ↦ m | _ ↦ n ]

  -- `normalizeAndValidateAddress`, which calls itself on the IPv4 part of a mapped address.
  unfoldable pub validate_address : ℕ → Bool → String → Result PolicyError DnsAddress
  validate_address zero trusted address = err out_of_fuel
  validate_address (suc fuel) trusted address =
      let normalized = normalize_hostname platform address in
      let lower = platform.to_lower_case normalized in
      elim (platform.parse_ip normalized) [
        | none ↦ err not_an_address
        | some (ipv4 n) ↦ validated_ipv4 trusted normalized n
        | some (ipv6 n) ↦ elim (without_prefix mapped_prefix lower) [
          | none ↦ validated_ipv6 trusted lower (ipv6_number lower n)
          | some rest ↦
              after (validate_address fuel trusted rest) (λ part. ok (dns_address lower 6))
        ]
      ]

  -- A call for each colon is more than enough: each takes off a prefix of seven characters.
  abbrev pub validate_bounded : Bool → String → Result PolicyError DnsAddress
  validate_bounded trusted address =
      validate_address (suc (utf16_length (normalize_hostname platform address))) trusted address

  -- `seen.has(key)` for the addresses so far: one key has one family and one address.
  abbrev pub same_address : DnsAddress → DnsAddress → Bool
  same_address a b = leb a.family b.family && leb b.family a.family && a.address == b.address

  abbrev pub add_new : DnsAddress → List DnsAddress → List DnsAddress
  add_new a addresses = if any (same_address a) addresses then addresses else addresses ++ a ∷ []

  -- The loop over what the resolver returned.
  unfoldable pub validate_all :
      Bool → List String → List DnsAddress → Result PolicyError (List DnsAddress)
  validate_all trusted [] addresses = ok addresses
  validate_all trusted (raw ∷ rest) addresses =
      after (validate_bounded trusted raw) (λ a. validate_all trusted rest (add_new a addresses))

  abbrev pub is_listed : String → Option (List String) → Bool
  is_listed hostname none = false
  is_listed hostname (some hosts) = contains (map (normalize_hostname platform) hosts) hostname

  abbrev pub passes_allowlist : String → Option (List String) → Bool
  passes_allowlist hostname none = true
  passes_allowlist hostname (some []) = true
  passes_allowlist hostname (some (host ∷ hosts)) = is_listed hostname (some (host ∷ hosts))

  abbrev pub is_localhost : String → Bool
  is_localhost hostname = hostname == "localhost" || ends_with ".localhost" hostname

  abbrev pub is_trusted : UrlPolicyOptions → String → Bool
  is_trusted options hostname = is_listed hostname options.trusted_private_hosts

  abbrev pub validated_addresses :
      UrlPolicyOptions → Url → String → Option (List String) → Result PolicyError (List DnsAddress)
  validated_addresses options url hostname none = err unresolved
  validated_addresses options url hostname (some []) = err no_address
  validated_addresses options url hostname (some (raw ∷ rest)) =
      validate_all (is_trusted options hostname) (raw ∷ rest) []

  -- The addresses of a host that passed the checks.
  unfoldable pub addresses_of :
      UrlPolicyOptions
      → (String → Option (List String))
      → Url
      → String
      → Result PolicyError (List DnsAddress)
  addresses_of options lookup url hostname =
      if is_some (platform.parse_ip hostname)
      then after (validate_bounded (is_trusted options hostname) hostname) (λ a. ok (a ∷ []))
      else if not (or_else options.resolve_dns true)
      then ok []
      else validated_addresses options url hostname (lookup hostname)

  -- The checks of a URL before its addresses.
  unfoldable pub check_url : UrlPolicyOptions → Url → Result PolicyError String
  check_url options url =
      let hostname = normalize_hostname platform url.hostname in
      if not (url.protocol == "https:") && not (url.protocol == "http:")
      then err scheme_not_allowed
      else if or_else options.require_https true && not (url.protocol == "https:")
      then err https_required
      else if not (is_empty url.username) || not (is_empty url.password)
      then err credentials
      else if is_empty hostname
      then err host_required
      else if not (passes_allowlist hostname options.allowed_hosts)
      then err host_not_allowed
      else if is_localhost hostname
      then err localhost
      else ok hostname

  -- The rest of `resolvePublicHttpUrl`, once the URL is parsed.
  unfoldable pub resolve_parsed :
      UrlPolicyOptions → (String → Option (List String)) → Url → Result PolicyError Resolution
  resolve_parsed options lookup url = after (check_url options url) (λ hostname.
      after (addresses_of options lookup url hostname)
        (λ addresses. ok (record { url = url; hostname = hostname; addresses = addresses })))

  unfoldable pub resolve_public_http_url :
      UrlPolicyOptions → (String → Option (List String)) → String → Result PolicyError Resolution
  resolve_public_http_url options lookup input = elim (platform.parse_url input) [
    | none ↦ err invalid_url
    | some url ↦ resolve_parsed options lookup url
  ]

  unfoldable pub assert_public_ip_address : String → Result PolicyError DnsAddress
  assert_public_ip_address address = validate_bounded false address
