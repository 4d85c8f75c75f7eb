-- ===== src/Shared/UrlPolicy/Examples.antt =====
-- A platform with three hosts, on which the theorems about packages/shared/src/security/urlPolicy.ts are
-- applied.
use mcp_suite.Common.{
  any, String, ◌≡◌, ◌+◌, refl, arith, true, false, some, none, List, [], ◌∷◌, Option, if◌then◌else◌,
  ◌==◌, eq_iff, ◌≢◌, subst, ap, or_else, sym, ℕ, ◌<◌, trim, before_char, without_last,
  without_prefix, utf16_length,
}
use mcp_suite.Effect.{ok, err}
use mcp_suite.Shared.Url.{Url, IpAddress, UrlPlatform, ipv4, ipv6}
use mcp_suite.Shared.UrlPolicy.Subnets.{ipv4_network, blocks_ipv4, blocks_ipv6}
use mcp_suite.Shared.UrlPolicy.Ranges.{
  blocks_ipv4_lem, in_range, reserved_ranges, blocks_ipv6-mapped,
}
use mcp_suite.Shared.UrlPolicy.{
  UrlPolicyOptions, Resolution, resolve_public_http_url, dns_address, reserved_ipv4,
  normalize_hostname, mapped_prefix, validate_address, validate_all, addresses_of, check_url,
  resolve_parsed, validate_bounded, out_of_fuel,
}
use mcp_suite.Shared.UrlPolicy.Fuel.{Shortens, validate_bounded_ends}
use mcp_suite.Shared.UrlPolicy.Targets.{Permitted, resolve_public_http_url-Permitted}

abbrev pub url_of : String → Url
url_of hostname = record {
  text = hostname;
  protocol = "https:";
  username = "";
  password = "";
  hostname = hostname;
  origin = hostname;
}

abbrev address_of : String → Option IpAddress
address_of s =
    if s == "8.8.8.8"
    then some (ipv4 (ipv4_network 8 8 8 8))
    else if s == "10.0.0.1"
    then some (ipv4 (ipv4_network 10 0 0 1))
    else if s == "::ffff:8.8.8.8"
    then some (ipv6 281470816487432)
    else none

abbrev pub platform : UrlPlatform
platform = record {
  parse_url = λ s. some (url_of s);
  resolve_url = λ s url. some (url_of s);
  parse_ip = address_of;
  to_lower_case = λ s. s;
}

abbrev pub options : UrlPolicyOptions
options = record {
  allowed_hosts = none;
  require_https = none;
  resolve_dns = none;
  trusted_private_hosts = none;
}

abbrev pub lookup : String → Option (List String)
lookup s =
    if s == "in"
    then some ("10.0.0.1" ∷ [])
    else some ("8.8.8.8" ∷ "8.8.8.8" ∷ "::ffff:8.8.8.8" ∷ [])

abbrev pub found : Resolution
found = record {
  url = url_of "out";
  hostname = "out";
  addresses = dns_address "8.8.8.8" 4 ∷ dns_address "::ffff:8.8.8.8" 6 ∷ [];
}

resolves : resolve_public_http_url platform options lookup "out" ≡ ok found
unfolding resolve_public_http_url resolve_parsed check_url normalize_hostname before_char
    without_last trim addresses_of validate_all validate_address blocks_ipv4 without_prefix
    utf16_length
resolves = refl

blocks : resolve_public_http_url platform options lookup "in" ≡ err reserved_ipv4
unfolding resolve_public_http_url resolve_parsed check_url normalize_hostname before_char
    without_last trim addresses_of validate_all validate_address blocks_ipv4
blocks = refl

resolve_public_http_url-Permitted_example : Permitted platform options found
resolve_public_http_url-Permitted_example =
    resolve_public_http_url-Permitted platform options lookup "out" found resolves

private_mapped : blocks_ipv6 (281470681743360 + ipv4_network 10 0 0 1) ≡ false
private_mapped = blocks_ipv6-mapped (ipv4_network 10 0 0 1) (omega arith)

-- The one IPv6 address of the platform.
abbrev mapped : String
mapped = "::ffff:8.8.8.8"

is_mapped : (s : String) (n : ℕ) → address_of s ≡ some (ipv6 n) → (s == mapped) ≡ true
is_mapped s n h = ground arith

shorter : utf16_length (normalize_hostname platform "8.8.8.8") < utf16_length mapped
unfolding normalize_hostname before_char without_last trim utf16_length
shorter = omega arith

mapped-Shortens :
    (rest : String)
    → without_prefix mapped_prefix mapped ≡ some rest
    → utf16_length (normalize_hostname platform rest) < utf16_length mapped
unfolding without_prefix
mapped-Shortens rest h =
    subst (λ t. utf16_length (normalize_hostname platform t) < utf16_length mapped) {x = "8.8.8.8"}
      (ap (λ o. or_else o "8.8.8.8") h) shorter

platform-Shortens : Shortens platform
unfolding Shortens
platform-Shortens s rest n parsed prefixed =
    subst
      (λ t.
        without_prefix mapped_prefix t ≡ some rest
        → utf16_length (normalize_hostname platform rest) < utf16_length t)
      (sym ((eq_iff s mapped).0 (is_mapped s n parsed))) (mapped-Shortens rest) prefixed

mapped_ends : validate_bounded platform false mapped ≢ err out_of_fuel
mapped_ends = validate_bounded_ends platform platform-Shortens false mapped

blocks_ipv4_lem_example :
    blocks_ipv4 (ipv4_network 172 31 0 1) ≡ any (in_range (ipv4_network 172 31 0 1)) reserved_ranges
blocks_ipv4_lem_example = blocks_ipv4_lem (ipv4_network 172 31 0 1)
