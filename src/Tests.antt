-- ===== src/Tests.antt =====
-- Runs of the definitions on concrete inputs, and the theorems at these inputs.
pub mod Data
mod AccessRuns
mod SessionRuns
mod EnforcementRuns
mod RecordRuns
mod ApiRuns
mod StoreRuns
pub mod Naturals
mod RuleRuns
mod PortfolioRuns
mod ConflictRuns
mod FileRuns
mod MoneyRuns
mod HealthRuns
mod PlanRuns
mod KnowledgeRuns
