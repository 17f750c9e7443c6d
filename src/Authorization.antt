-- ===== src/Authorization.antt =====
-- src/app/authorization: response shaping and the enforcement point.
pub mod FieldPolicy
pub mod Enforcement
