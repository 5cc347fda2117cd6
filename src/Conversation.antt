-- ===== src/Conversation.antt =====
-- The context of a long conversation (backend/app/services/conversation_context.py).
pub mod Notes
pub mod Context
