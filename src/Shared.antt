-- ===== src/Shared.antt =====
-- packages/shared: what the servers of the suite share.
pub mod ApiKey
pub mod Url
pub mod UrlPolicy
pub mod SafeFetch
pub mod Retry
pub mod JsonRpc
pub mod Client
pub mod RateLimiter
