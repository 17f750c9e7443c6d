-- ===== src/Access.antt =====
-- src/platform/authz: the roles, capabilities and classifications, and the policy decision point.
pub mod Types
pub mod Policy
