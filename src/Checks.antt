-- ===== src/Checks.antt =====
-- src/mini_code_agent/checks.py: the verification checks of a run.
pub mod Normalize
pub mod Matrix
