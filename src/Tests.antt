-- ===== src/Tests.antt =====
-- The tests of the development: runs of the models, and the theorems at concrete inputs.
pub mod Checks
pub mod Batch
pub mod Transaction
pub mod Receipt
pub mod Memory
pub mod Create
pub mod Undo
pub mod Conversation
pub mod Continuity
pub mod Agent
