-- ===== src/Shared/UrlPolicy/Fuel.antt =====
-- The recursion of `normalizeAndValidateAddress` of packages/shared/src/security/urlPolicy.ts ends.
use mcp_suite.Common.{
  ℕ, zero, suc, ◌<◌, String, ◌≡◌, ◌≢◌, Bool, some, arith, without_prefix, utf16_length,
  Option-cases, inl, inr,
}
use mcp_suite.Effect.{err, Result-cases}
use mcp_suite.Shared.Url.{UrlPlatform, ipv4, ipv6}
use mcp_suite.Shared.UrlPolicy.{
  out_of_fuel, normalize_hostname, mapped_prefix, validate_address, validate_bounded,
}

module _ (platform : UrlPlatform) where
  -- What follows the prefix of an IPv6 address is the shorter text: an address is written in ASCII,
  -- where the letters of both cases have one length.
  unfoldable pub Shortens : Type 0
  Shortens =
      (s rest : String) (n : ℕ)
      → platform.parse_ip s ≡ some (ipv6 n)
      → without_prefix mapped_prefix (platform.to_lower_case s) ≡ some rest
      → utf16_length (normalize_hostname platform rest) < utf16_length s

  enough :
      Shortens
      → (fuel : ℕ) (trusted : Bool) (address : String)
      → utf16_length (normalize_hostname platform address) < fuel
      → validate_address platform fuel trusted address ≢ err out_of_fuel
  unfolding validate_address Shortens
  enough shortens zero trusted address lt h = omega arith
  enough shortens (suc fuel) trusted address lt h =
      elim (Option-cases (platform.parse_ip (normalize_hostname platform address))) [
        | inl missing ↦ absurd (ground (arith, missing, h))
        | inr (ipv4 n, parsed) ↦ absurd (ground (arith, parsed, h))
        | inr (ipv6 n, parsed) ↦
            elim (Option-cases (
              without_prefix mapped_prefix
                (platform.to_lower_case (normalize_hostname platform address)))) [
                  | inl unmapped ↦ absurd (ground (arith, parsed, unmapped, h))
                  | inr (rest, prefixed) ↦
                      elim (Result-cases (validate_address platform fuel trusted rest)) [
                        | inl (part, admitted) ↦
                            absurd (ground (arith, parsed, prefixed, admitted, h))
                        | inr (e, refused) ↦
                            let below : utf16_length (normalize_hostname platform rest) < fuel =
                              omega (
                                arith,
                                shortens (normalize_hostname platform address) rest n parsed
                                    prefixed,
                                lt,
                              ) in
                            enough shortens fuel trusted rest below
                              (ground (arith, parsed, prefixed, refused, h))
                      ]
                ]
      ]

  -- Whatever the address, its validation ends within the calls that it is given.
  pub validate_bounded_ends :
      Shortens
      → (trusted : Bool) (address : String)
      → validate_bounded platform trusted address ≢ err out_of_fuel
  validate_bounded_ends shortens trusted address =
      enough shortens (suc (utf16_length (normalize_hostname platform address))) trusted address
        (omega arith)
