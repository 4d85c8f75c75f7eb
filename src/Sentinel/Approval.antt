-- ===== src/Sentinel/Approval.antt =====
-- The approval subsystem of packages/sentinel/src/approval.
pub mod Model
pub mod Input
pub mod Sql
pub mod Create
pub mod Dispatch
pub mod Decide
pub mod Claim
pub mod Expiry
pub mod Read
pub mod Methods
pub mod Evolution
pub mod Calls
pub mod Audit
pub mod Gate
pub mod Examples
