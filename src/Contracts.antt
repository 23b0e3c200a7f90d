-- ===== src/Contracts.antt =====
-- src/mini_code_agent/contracts.py: the results that an executor returns.
use mini_code_agent_langgrap.Prelude.{ℕ, Bool, List, Option, String, ℤ}
use mini_code_agent_langgrap.Prelude.Json.{Fields}
use mini_code_agent_langgrap.Checks.Matrix.{VerificationCheckEvidence}

-- The arguments of a tool call: a dict of the model's, or the private argument that names the
-- paths which verification ignores.
pub data ToolArgs : Type 0 where
  given : Fields → ToolArgs
  verification_ignore_paths : List String → ToolArgs

pub record ToolResult : Type 0 where
  pub tool : String
  pub output : String
  pub returncode : ℤ
  pub duration_ms : ℕ
  pub command : String
  pub args : Option Fields
  pub before_content : Option String
  pub after_content : Option String
  pub file_path : String
  pub file_existed_before : Option Bool
  pub before_hash : String
  pub after_hash : String
  pub exception_info : String
  pub submitted : Bool
  pub submission : String
  pub approved : Bool
  pub blocked : Bool
  pub tests_run : Option ℕ
  pub verification_checks : List VerificationCheckEvidence
  pub verification_boundary_checked : Bool
  pub verification_fingerprint : String

pub record ExecutedToolCall : Type 0 where
  pub name : String
  pub args : Fields
  pub tool_call_id : String
  pub result : ToolResult

pub record ToolBatchOutcome : Type 0 where
  pub calls : List ExecutedToolCall
  pub submitted : Bool
  pub submission : String
