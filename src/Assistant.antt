-- ===== src/Assistant.antt =====
-- The assistant's plans, the conversation that refines them and the planning of a turn:
-- src/contexts/ai-intelligence/internal/plan.ts, and plan-validator.ts, conversation.ts and
-- orchestrator.ts of src/app/assistant.
pub mod Patterns
pub mod Plan
pub mod Validator
pub mod Proposal
pub mod Conversation
pub mod Turns
