-- ===== src/Knowledge.antt =====
-- src/contexts/knowledge: documents in versions, and the lexical index over their chunks.
pub mod Chunks
pub mod Index
pub mod Retrieval
