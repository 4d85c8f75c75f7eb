-- ===== src/Shared/UrlPolicy/Addresses.antt =====
-- The addresses that packages/shared/src/security/urlPolicy.ts accepts: those outside its reserved ranges. An IPv4
-- address written as an IPv6 one counts as IPv4 only in the spelling that starts with ::ffff:.
use mcp_suite.Common.{
  ℕ, zero, suc, String, ◌≡◌, ap, subst, refl, Bool, true, false, Option, none, some, List, [], ◌∷◌,
  arith, any, All, All-snoc, if◌then◌else◌, or_else, is_some, without_prefix, utf16_length,
  Bool-cases, Option-cases, inl, inr, ◌∙◌, sym,
}
use mcp_suite.Effect.{ok, err, Result-cases}
use mcp_suite.Shared.Url.{Url, UrlPlatform, ipv4, ipv6}
use mcp_suite.Shared.UrlPolicy.Subnets.{blocks_ipv4, blocks_ipv6}
use mcp_suite.Shared.UrlPolicy.Ranges.{
  in_range, reserved_ranges, reserved_ranges_ipv6, blocks_ipv4_lem, blocks_ipv6_lem,
}
use mcp_suite.Shared.UrlPolicy.{
  DnsAddress, UrlPolicyOptions, PolicyError, reserved_ipv4, reserved_ipv6, normalize_hostname,
  mapped_prefix, validate_address, validate_bounded, validate_all, add_new, same_address,
  is_trusted, addresses_of, validated_addresses, ipv6_number, validated_ipv4, validated_ipv6,
  dns_address,
}

module _ (platform : UrlPlatform) where
  -- The second text is the address that the first one names: an IPv4 address in no reserved range, an IPv6
  -- address without the prefix ::ffff: in no reserved range, or an address of these kinds behind the prefix.
  pub data Admits : String → String → Type 0 where
    unreserved_ipv4 :
        (raw address : String) (n : ℕ)
        → address ≡ normalize_hostname platform raw
        → platform.parse_ip address ≡ some (ipv4 n)
        → any (in_range n) reserved_ranges ≡ false
        → Admits raw address
    unreserved_ipv6 :
        (raw address : String) (n : ℕ)
        → address ≡ platform.to_lower_case (normalize_hostname platform raw)
        → platform.parse_ip (normalize_hostname platform raw) ≡ some (ipv6 n)
        → without_prefix mapped_prefix address ≡ none
        → any (in_range (ipv6_number platform address n)) reserved_ranges_ipv6 ≡ false
        → Admits raw address
    mapped :
        (raw address rest part : String)
        → address ≡ platform.to_lower_case (normalize_hostname platform raw)
        → without_prefix mapped_prefix address ≡ some rest
        → Admits rest part
        → Admits raw address

  -- The fields of what was returned.
  returned_fields :
      (trusted_or_blocked : Bool) (e : PolicyError) (a : DnsAddress) {d : DnsAddress}
      → (if trusted_or_blocked then err e else ok a) ≡ ok d
      → (trusted_or_blocked ≡ false) × (d.address ≡ a.address)
  returned_fields true e a h = absurd (ground arith)
  returned_fields false e a h = (refl, ground arith)

  ipv4-Admits :
      (raw : String) (n : ℕ) (d : DnsAddress)
      → platform.parse_ip (normalize_hostname platform raw) ≡ some (ipv4 n)
      → validated_ipv4 platform false (normalize_hostname platform raw) n ≡ ok d
      → Admits raw d.address
  ipv4-Admits raw n d parsed h =
      let (open_range, named) =
        returned_fields (blocks_ipv4 n) reserved_ipv4
          (dns_address (normalize_hostname platform raw) 4) h in
      unreserved_ipv4 raw d.address n named (rw (named, parsed) refl)
        (sym (blocks_ipv4_lem n) ∙ open_range)

  ipv6-Admits :
      (raw lower : String) (n : ℕ) (d : DnsAddress)
      → lower ≡ platform.to_lower_case (normalize_hostname platform raw)
      → platform.parse_ip (normalize_hostname platform raw) ≡ some (ipv6 n)
      → without_prefix mapped_prefix lower ≡ none
      → validated_ipv6 platform false lower (ipv6_number platform lower n) ≡ ok d
      → Admits raw d.address
  ipv6-Admits raw lower n d lowered parsed unmapped h =
      let (open_range, named) =
        returned_fields (blocks_ipv6 (ipv6_number platform lower n)) reserved_ipv6
          (dns_address lower 6) h in
      unreserved_ipv6 raw d.address n (named ∙ lowered) parsed
        (ap (without_prefix mapped_prefix) named ∙ unmapped)
        (sym (blocks_ipv6_lem (ipv6_number platform d.address n))
          ∙ ap (λ t. blocks_ipv6 (ipv6_number platform t n)) named
          ∙ open_range)

  pub validate_address-Admits :
      (fuel : ℕ) (raw : String) (d : DnsAddress)
      → validate_address platform fuel false raw ≡ ok d
      → Admits raw d.address
  unfolding validate_address
  validate_address-Admits zero raw d h = absurd (ground arith)
  validate_address-Admits (suc fuel) raw d h =
      elim (Option-cases (platform.parse_ip (normalize_hostname platform raw))) [
        | inl missing ↦ absurd (ground (arith, missing))
        | inr (ipv4 n, parsed) ↦ ipv4-Admits raw n d parsed (ground (arith, parsed, h))
        | inr (ipv6 n, parsed) ↦
            elim (Option-cases (
              without_prefix mapped_prefix
                (platform.to_lower_case (normalize_hostname platform raw)))) [
                  | inl unmapped ↦
                      ipv6-Admits raw (platform.to_lower_case (normalize_hostname platform raw)) n d
                        refl parsed unmapped (ground (arith, parsed, unmapped, h))
                  | inr (rest, prefixed) ↦
                      elim (Result-cases (validate_address platform fuel false rest)) [
                        | inl (part, admitted) ↦
                            let named : d.address
                                ≡ platform.to_lower_case (normalize_hostname platform raw) =
                              ground (arith, parsed, prefixed, admitted, h) in
                            mapped raw d.address rest part.address named
                              (ap (without_prefix mapped_prefix) named ∙ prefixed)
                              (validate_address-Admits fuel rest part admitted)
                        | inr (e, refused) ↦ absurd (ground (arith, parsed, prefixed, refused, h))
                      ]
                ]
      ]

  -- An address outside the reserved ranges, which some resolved text names.
  pub record Unreserved (a : DnsAddress) : Type 0 where
    pub raw : String
    pub admitted : Admits raw a.address

  add_new-Unreserved :
      (xs : List DnsAddress) (a : DnsAddress)
      → All Unreserved xs
      → Unreserved a
      → All Unreserved (add_new platform a xs)
  add_new-Unreserved xs a h p = elim (Bool-cases (any (same_address platform a) xs)) [
    | inl seen ↦ rw seen h
    | inr fresh ↦ rw fresh (All-snoc Unreserved xs a h p)
  ]

  validate_bounded-Unreserved :
      (raw : String) (d : DnsAddress) → validate_bounded platform false raw ≡ ok d → Unreserved d
  validate_bounded-Unreserved raw d h = record {
    raw = raw;
    admitted =
        validate_address-Admits (suc (utf16_length (normalize_hostname platform raw))) raw d h;
  }

  validate_all-Unreserved :
      (raws : List String) (xs ys : List DnsAddress)
      → All Unreserved xs
      → validate_all platform false raws xs ≡ ok ys
      → All Unreserved ys
  unfolding validate_all
  validate_all-Unreserved [] xs ys p h = subst (All Unreserved) (ground (arith, h)) p
  validate_all-Unreserved (raw ∷ raws) xs ys p h =
      elim (Result-cases (validate_bounded platform false raw)) [
        | inl (a, admitted) ↦
            validate_all-Unreserved raws (add_new platform a xs) ys
              (add_new-Unreserved xs a p (validate_bounded-Unreserved raw a admitted))
              (ground (arith, admitted, h))
        | inr (e, refused) ↦ absurd (ground (arith, refused, h))
      ]

  validated_addresses-Unreserved :
      (options : UrlPolicyOptions) (url : Url) (hostname : String) (answer : Option (List String))
      (addresses : List DnsAddress)
      → is_trusted platform options hostname ≡ false
      → validated_addresses platform options url hostname answer ≡ ok addresses
      → All Unreserved addresses
  validated_addresses-Unreserved options url hostname none addresses u h = absurd (ground arith)
  validated_addresses-Unreserved options url hostname (some []) addresses u h =
      absurd (ground arith)
  validated_addresses-Unreserved options url hostname (some (raw ∷ raws)) addresses u h =
      validate_all-Unreserved (raw ∷ raws) [] addresses tt
        (subst (λ t. validate_all platform t (raw ∷ raws) [] ≡ ok addresses) u h)

  pub addresses_of-Unreserved :
      (options : UrlPolicyOptions) (lookup : String → Option (List String)) (url : Url)
      (hostname : String) (addresses : List DnsAddress)
      → is_trusted platform options hostname ≡ false
      → addresses_of platform options lookup url hostname ≡ ok addresses
      → All Unreserved addresses
  unfolding addresses_of
  addresses_of-Unreserved options lookup url hostname addresses u h =
      elim (Bool-cases (is_some (platform.parse_ip hostname))) [
        | inl literal ↦ elim (Result-cases (validate_bounded platform false hostname)) [
          | inl (a, admitted) ↦
              subst (All Unreserved) {x = a ∷ []} (ground (arith, u, literal, admitted, h))
                (validate_bounded-Unreserved hostname a admitted, tt)
          | inr (e, refused) ↦ absurd (ground (arith, u, literal, refused, h))
        ]
        | inr named ↦ elim (Bool-cases (or_else options.resolve_dns true)) [
          | inr skipped ↦ subst (All Unreserved) {x = []} (ground (arith, named, skipped, h)) tt
          | inl asked ↦
              validated_addresses-Unreserved options url hostname (lookup hostname) addresses u
                (ground (arith, named, asked, h))
        ]
      ]
