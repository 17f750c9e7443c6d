-- ===== src/Rules.antt =====
-- src/contexts/rules: rules as data, and the engine that evaluates them.
pub mod Engine
pub mod Overrides
pub mod Explained
