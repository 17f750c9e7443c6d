-- ===== src/Portfolio.antt =====
-- src/contexts/portfolio: which projects leadership takes up first.
pub mod Priority
