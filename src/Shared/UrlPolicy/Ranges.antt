-- ===== src/Shared/UrlPolicy/Ranges.antt =====
-- Which addresses packages/shared/src/security/urlPolicy.ts blocks, as ranges from a first address to a
-- last one.
use mcp_suite.Common.{ℕ, ◌+◌, ◌≤◌, ◌≡◌, refl, Bool, false, ◌&&◌, List, [], ◌∷◌, any, arith, leb}
use mcp_suite.Shared.UrlPolicy.Subnets.{
  Subnet, in_subnet, ipv4_network, blocks_ipv4, blocks_ipv6, blocked_ipv4_subnets,
  blocked_ipv6_subnets,
}

pub record Range : Type 0 where
  pub first : ℕ
  pub last : ℕ

abbrev pub in_range : ℕ → Range → Bool
in_range address range = leb range.first address && leb address range.last

abbrev range : ℕ → ℕ → Range
range first last = record { first = first; last = last }

-- This network, private, carrier-grade NAT, loopback, link-local, private, protocol assignments,
-- documentation, private, benchmarking, documentation twice, multicast, and reserved.
abbrev pub reserved_ranges : List Range
reserved_ranges =
    range (ipv4_network 0 0 0 0) (ipv4_network 0 255 255 255)
    ∷ range (ipv4_network 10 0 0 0) (ipv4_network 10 255 255 255)
    ∷ range (ipv4_network 100 64 0 0) (ipv4_network 100 127 255 255)
    ∷ range (ipv4_network 127 0 0 0) (ipv4_network 127 255 255 255)
    ∷ range (ipv4_network 169 254 0 0) (ipv4_network 169 254 255 255)
    ∷ range (ipv4_network 172 16 0 0) (ipv4_network 172 31 255 255)
    ∷ range (ipv4_network 192 0 0 0) (ipv4_network 192 0 0 255)
    ∷ range (ipv4_network 192 0 2 0) (ipv4_network 192 0 2 255)
    ∷ range (ipv4_network 192 168 0 0) (ipv4_network 192 168 255 255)
    ∷ range (ipv4_network 198 18 0 0) (ipv4_network 198 19 255 255)
    ∷ range (ipv4_network 198 51 100 0) (ipv4_network 198 51 100 255)
    ∷ range (ipv4_network 203 0 113 0) (ipv4_network 203 0 113 255)
    ∷ range (ipv4_network 224 0 0 0) (ipv4_network 239 255 255 255)
    ∷ range (ipv4_network 240 0 0 0) (ipv4_network 255 255 255 255)
    ∷ []

-- Each subnet holds the address exactly where its range does.
abbrev Agree : ℕ → ℕ → List Subnet → List Range → Type 0
Agree width address [] [] = Unit
Agree width address (s ∷ ss) (r ∷ rs) =
    (in_subnet width address s ≡ in_range address r) × Agree width address ss rs
Agree width address _ _ = ⊥

any-Agree :
    (width address : ℕ) (ss : List Subnet) (rs : List Range)
    → Agree width address ss rs
    → any (in_subnet width address) ss ≡ any (in_range address) rs
any-Agree width address [] [] h = refl
any-Agree width address [] (r ∷ rs) h = absurd h
any-Agree width address (s ∷ ss) [] h = absurd h
any-Agree width address (s ∷ ss) (r ∷ rs) h = rw (h.0, any-Agree width address ss rs h.1) refl

subnets-Agree : (address : ℕ) → Agree 32 address blocked_ipv4_subnets reserved_ranges
subnets-Agree address = (
  ground arith,
  (
    ground arith,
    (
      ground arith,
      (
        ground arith,
        (
          ground arith,
          (
            ground arith,
            (
              ground arith,
              (
                ground arith,
                (
                  ground arith,
                  (
                    ground arith,
                    (ground arith, (ground arith, (ground arith, (ground arith, tt)))),
                  ),
                ),
              ),
            ),
          ),
        ),
      ),
    ),
  ),
)

-- The IPv4 addresses that the subnets block are those of these ranges.
pub blocks_ipv4_lem : (address : ℕ) → blocks_ipv4 address ≡ any (in_range address) reserved_ranges
unfolding blocks_ipv4
blocks_ipv4_lem address =
    any-Agree 32 address blocked_ipv4_subnets reserved_ranges (subnets-Agree address)

-- The IPv4 addresses written as IPv6 ones, ::ffff:0:0/96, are in no blocked IPv6 subnet.
pub blocks_ipv6-mapped : (n : ℕ) → n ≤ 4294967295 → blocks_ipv6 (281470681743360 + n) ≡ false
unfolding blocks_ipv6
blocks_ipv6-mapped n h = ground arith

-- Unspecified, loopback, translation twice, discard, protocol assignments, documentation, 6to4, documentation,
-- segment routing, unique local, link-local, and multicast.
abbrev pub reserved_ranges_ipv6 : List Range
reserved_ranges_ipv6 =
    range 0x00000000000000000000000000000000 0x00000000000000000000000000000000
    ∷ range 0x00000000000000000000000000000001 0x00000000000000000000000000000001
    ∷ range 0x0064ff9b000000000000000000000000 0x0064ff9b0000000000000000ffffffff
    ∷ range 0x0064ff9b000100000000000000000000 0x0064ff9b0001ffffffffffffffffffff
    ∷ range 0x01000000000000000000000000000000 0x0100000000000000ffffffffffffffff
    ∷ range 0x20010000000000000000000000000000 0x200101ffffffffffffffffffffffffff
    ∷ range 0x20010db8000000000000000000000000 0x20010db8ffffffffffffffffffffffff
    ∷ range 0x20020000000000000000000000000000 0x2002ffffffffffffffffffffffffffff
    ∷ range 0x3fff0000000000000000000000000000 0x3fff0fffffffffffffffffffffffffff
    ∷ range 0x5f000000000000000000000000000000 0x5f00ffffffffffffffffffffffffffff
    ∷ range 0xfc000000000000000000000000000000 0xfdffffffffffffffffffffffffffffff
    ∷ range 0xfe800000000000000000000000000000 0xfebfffffffffffffffffffffffffffff
    ∷ range 0xff000000000000000000000000000000 0xffffffffffffffffffffffffffffffff
    ∷ []

subnets_ipv6-Agree : (address : ℕ) → Agree 128 address blocked_ipv6_subnets reserved_ranges_ipv6
subnets_ipv6-Agree address = (
  ground arith,
  (
    ground arith,
    (
      ground arith,
      (
        ground arith,
        (
          ground arith,
          (
            ground arith,
            (
              ground arith,
              (
                ground arith,
                (ground arith, (ground arith, (ground arith, (ground arith, (ground arith, tt))))),
              ),
            ),
          ),
        ),
      ),
    ),
  ),
)

-- The IPv6 addresses that the subnets block are those of these ranges.
pub blocks_ipv6_lem :
    (address : ℕ) → blocks_ipv6 address ≡ any (in_range address) reserved_ranges_ipv6
unfolding blocks_ipv6
blocks_ipv6_lem address =
    any-Agree 128 address blocked_ipv6_subnets reserved_ranges_ipv6 (subnets_ipv6-Agree address)
