-- ===== src/Shared/Url.antt =====
-- The URLs and addresses that packages/shared/src/security reads, and what the platform does with them:
-- the URL parser, `isIP` and the numbers that `BlockList` reads in an address, and `toLowerCase`.
use mcp_suite.Common.{ℕ, String, Option}

pub record Url : Type 0 where
  pub text : String
  pub protocol : String
  pub username : String
  pub password : String
  pub hostname : String
  pub origin : String

-- An IPv4 address as a number of 32 bits, an IPv6 address as one of 128 bits.
pub data IpAddress : Type 0 where
  ipv4 ipv6 : ℕ → IpAddress

-- `parse_ip` is `none` where `isIP` is 0; `resolve_url` is `new URL(location, base)`.
pub record UrlPlatform : Type 0 where
  pub parse_url : String → Option Url
  pub resolve_url : String → Url → Option Url
  pub parse_ip : String → Option IpAddress
  pub to_lower_case : String → String
