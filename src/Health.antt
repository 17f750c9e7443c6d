-- ===== src/Health.antt =====
-- src/contexts/health and the health models of src/contexts/rules: a project's status from its
-- signals, beside what was reported and what was overridden.
pub mod Model
pub mod Scoring
pub mod Statuses
pub mod Assessment
