-- ===== src/Verification/Calls.antt =====
-- The calls of one model message, and the steps of `execute_tool_batch` of
-- src/mini_code_agent/verification.py that touch neither the executor nor the workspace.
use mini_code_agent_langgrap.Prelude.{
  ℕ, suc, ◌+◌, Bool, true, false, not, ◌&&◌, ◌||◌, List, [], ◌∷◌, Option, none, some, String,
  negsuc, is_zero, ◌==◌, is_empty, concat, decimal, contains, if◌then◌else◌,
}
use mini_code_agent_langgrap.Prelude.Json.{Json, Fields, obj, end}
use mini_code_agent_langgrap.Contracts.{ToolResult, ExecutedToolCall, ToolBatchOutcome}
use mini_code_agent_langgrap.Verification.Gate.{
  VerificationGate, failed, SubmissionError, sync, record_test,
}

abbrev pub structured_edit_tools : List String
structured_edit_tools = "write_file" ∷ "apply_patch" ∷ "replace_lines" ∷ []

abbrev pub potentially_mutating_tools : List String
potentially_mutating_tools =
    "write_file" ∷ "apply_patch" ∷ "replace_lines" ∷ "bash" ∷ "run_tests" ∷ []

-- `ToolResult(tool=..., output=..., returncode=..., duration_ms=..., exception_info=..., blocked=True)`
abbrev pub blocked_result : String → String → String → ToolResult
blocked_result tool exception_info output = record {
  tool = tool;
  output = output;
  returncode = negsuc 0;
  duration_ms = 0;
  command = "";
  args = none;
  before_content = none;
  after_content = none;
  file_path = "";
  file_existed_before = none;
  before_hash = "";
  after_hash = "";
  exception_info = exception_info;
  submitted = false;
  submission = "";
  approved = true;
  blocked = true;
  tests_run = none;
  verification_checks = [];
  verification_boundary_checked = false;
  verification_fingerprint = "";
}

unfoldable pub tool_exception_result : String → String → String → ToolResult
tool_exception_result name exception_info output = blocked_result name exception_info output

unfoldable pub blocked_submission : SubmissionError → ToolResult
blocked_submission e = blocked_result "submit" e.exception_info e.output

-- One of the model's tool calls.
pub record ToolCall : Type 0 where
  pub name : Option String
  pub args : Option Json
  pub id : Option String

pub record Call : Type 0 where
  pub name : String
  pub args : Fields
  pub id : String

abbrev pub dict_or_empty : Option Json → Fields
dict_or_empty (some (obj fields)) = fields
dict_or_empty (some _) = end
dict_or_empty none = end

abbrev pub or_default : Option String → String → String
or_default none d = d
or_default (some s) d = if is_empty s then d else s

abbrev pub text_or_empty : Option String → String
text_or_empty none = ""
text_or_empty (some s) = s

unfoldable pub normalize_call : ℕ → ToolCall → Call
normalize_call index call = record {
  name = text_or_empty call.name;
  args = dict_or_empty call.args;
  id = or_default call.id (concat ("tool-" ∷ decimal (index + 1) ∷ []));
}

unfoldable pub normalize_calls : ℕ → List ToolCall → List Call
normalize_calls index [] = []
normalize_calls index (call ∷ rest) = normalize_call index call ∷ normalize_calls (suc index) rest

-- Only the structured submit tool can end a task.
unfoldable pub refuse_legacy_submission : String → ToolResult → ToolResult
refuse_legacy_submission name result =
    if result.submitted
    then record (blocked_result name "LegacySubmissionDisabled"
        "Legacy shell submission is disabled; call the submit tool.") {
          command = result.command;
          duration_ms = result.duration_ms;
          args = result.args;
        }
    else result

-- A successful, approved call of a tool that may change files.
unfoldable pub is_edit : String → ToolResult → Bool
is_edit name result =
    contains name potentially_mutating_tools
    && (is_zero result.returncode
        && (result.approved && not (result.exception_info == "ReadOnlyChatMode")))

-- Such a call asks for verification.
unfoldable pub demand_verification : String → ToolResult → VerificationGate → VerificationGate
demand_verification name result gate =
    if is_edit name result then record gate { require_verification = true } else gate

-- A passing test result must carry the fingerprint that the gate now sees.
unfoldable pub is_handoff_broken : ToolResult → String → Bool
is_handoff_broken result fingerprint =
    is_zero result.returncode
    && ((result.verification_boundary_checked
          || elim result.verification_checks [ [] ↦ false | _ ∷ _ ↦ true ])
        && (is_empty result.verification_fingerprint
            || not (result.verification_fingerprint == fingerprint)))

unfoldable pub check_handoff : ToolResult → String → ToolResult
check_handoff result fingerprint =
    if is_handoff_broken result fingerprint
    then record result {
      returncode = negsuc 0;
      exception_info = "WorkspaceChangedDuringVerification";
      output = concat (
          result.output
          ∷ "\n\nThe verification fingerprint was missing or changed at the executor handoff; submission evidence was not minted."
          ∷ []);
    }
    else result

unfoldable pub lose_workspace : VerificationGate → VerificationGate
lose_workspace gate = record gate { verified_fingerprint = ""; status = failed }

-- The gate after a call whose fingerprint is known.
unfoldable pub judge :
    String → ToolResult → VerificationGate → String → ToolResult × VerificationGate
judge name result gate fingerprint =
    if name == "run_tests"
    then (let result' = check_handoff result fingerprint in
        (result', record_test gate (is_zero result'.returncode) fingerprint))
    else (result, sync gate fingerprint)

abbrev pub any_submit : List Call → Bool
any_submit [] = false
any_submit (call ∷ rest) = call.name == "submit" || any_submit rest

unfoldable pub accepted : List ExecutedToolCall → Option String
accepted [] = none
accepted (call ∷ rest) = elim (accepted rest) [
  | some submission ↦ some submission
  | none ↦ if call.result.submitted then some call.result.submission else none
]

unfoldable pub outcome : List ExecutedToolCall → ToolBatchOutcome
outcome executed = elim (accepted executed) [
  | some submission ↦ record { calls = executed; submitted = true; submission = submission }
  | none ↦ record { calls = executed; submitted = false; submission = "" }
]
