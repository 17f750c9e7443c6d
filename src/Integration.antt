-- ===== src/Integration.antt =====
-- src/contexts/integration: which source governs a value.
pub mod Authority
pub mod IdentityHub
pub mod Conflict
pub mod Staging
