-- ===== src/Sentinel.antt =====
-- packages/sentinel: the security proxy.
pub mod Request
pub mod Approval
pub mod Keys
pub mod Pipeline
pub mod Proxy
pub mod Redaction
pub mod AuditLog
