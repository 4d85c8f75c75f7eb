-- ===== src/Forge.antt =====
-- packages/forge: the health of the servers that its pipelines call.
pub mod Health
