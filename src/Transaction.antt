-- ===== src/Transaction.antt =====
-- src/mini_code_agent/transaction.py: the transaction store.
pub mod Store
pub mod Rules
pub mod Reads
pub mod Admission
pub mod Create
pub mod Prepare
pub mod Commit
