-- ===== src/Conversation.antt =====
-- The evidence of conversations.
pub mod Ledger
