-- ===== src/Retrieval.antt =====
-- Retrieval (backend/app/rag): the context around the chunks that are found, and the slots that the
-- vision model is called in.
pub mod Parents
pub mod Attach
pub mod Slots
