-- ===== src/Shared/UrlPolicy/Subnets.antt =====
-- The blocked networks of packages/shared/src/security/urlPolicy.ts. `BlockList.check` finds an address
-- in a subnet where both have the same leading bits.
use mcp_suite.Common.{ℕ, ◌+◌, ◌-◌, ◌*◌, ◌/◌, ◌^◌, Bool, List, [], ◌∷◌, any, leb, ◌&&◌}

pub record Subnet : Type 0 where
  pub network : ℕ
  pub prefix : ℕ

abbrev pub in_subnet : ℕ → ℕ → Subnet → Bool
in_subnet width address subnet =
    let size = 2 ^ (width - subnet.prefix) in
    leb (subnet.network / size) (address / size) && leb (address / size) (subnet.network / size)

abbrev pub ipv4_network : ℕ → ℕ → ℕ → ℕ → ℕ
ipv4_network a b c d = a * 16777216 + b * 65536 + c * 256 + d

-- The leading groups of an IPv6 address, the other groups being 0.
abbrev pub leading_groups : ℕ → List ℕ → ℕ
leading_groups weight [] = 0
leading_groups weight (g ∷ gs) = g * weight + leading_groups (weight / 65536) gs

abbrev pub ipv6_network : List ℕ → ℕ
ipv6_network = leading_groups 5192296858534827628530496329220096

abbrev pub subnet : ℕ → ℕ → Subnet
subnet network prefix = record { network = network; prefix = prefix }

abbrev pub blocked_ipv4_subnets : List Subnet
blocked_ipv4_subnets =
    subnet (ipv4_network 0 0 0 0) 8
    ∷ subnet (ipv4_network 10 0 0 0) 8
    ∷ subnet (ipv4_network 100 64 0 0) 10
    ∷ subnet (ipv4_network 127 0 0 0) 8
    ∷ subnet (ipv4_network 169 254 0 0) 16
    ∷ subnet (ipv4_network 172 16 0 0) 12
    ∷ subnet (ipv4_network 192 0 0 0) 24
    ∷ subnet (ipv4_network 192 0 2 0) 24
    ∷ subnet (ipv4_network 192 168 0 0) 16
    ∷ subnet (ipv4_network 198 18 0 0) 15
    ∷ subnet (ipv4_network 198 51 100 0) 24
    ∷ subnet (ipv4_network 203 0 113 0) 24
    ∷ subnet (ipv4_network 224 0 0 0) 4
    ∷ subnet (ipv4_network 240 0 0 0) 4
    ∷ []

abbrev pub blocked_ipv6_subnets : List Subnet
blocked_ipv6_subnets =
    subnet 0 128
    ∷ subnet 1 128
    ∷ subnet (ipv6_network (0x64 ∷ 0xff9b ∷ [])) 96
    ∷ subnet (ipv6_network (0x64 ∷ 0xff9b ∷ 1 ∷ [])) 48
    ∷ subnet (ipv6_network (0x100 ∷ [])) 64
    ∷ subnet (ipv6_network (0x2001 ∷ [])) 23
    ∷ subnet (ipv6_network (0x2001 ∷ 0xdb8 ∷ [])) 32
    ∷ subnet (ipv6_network (0x2002 ∷ [])) 16
    ∷ subnet (ipv6_network (0x3fff ∷ [])) 20
    ∷ subnet (ipv6_network (0x5f00 ∷ [])) 16
    ∷ subnet (ipv6_network (0xfc00 ∷ [])) 7
    ∷ subnet (ipv6_network (0xfe80 ∷ [])) 10
    ∷ subnet (ipv6_network (0xff00 ∷ [])) 8
    ∷ []

unfoldable pub blocks_ipv4 : ℕ → Bool
blocks_ipv4 address = any (in_subnet 32 address) blocked_ipv4_subnets

unfoldable pub blocks_ipv6 : ℕ → Bool
blocks_ipv6 address = any (in_subnet 128 address) blocked_ipv6_subnets
