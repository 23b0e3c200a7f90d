-- ===== src/Verification.antt =====
-- src/mini_code_agent/verification.py: the gate that binds a passing test run to one state of the
-- workspace, and the execution of a batch of tool calls under it.
pub mod Gate
pub mod Capture
pub mod Calls
pub mod Batch
