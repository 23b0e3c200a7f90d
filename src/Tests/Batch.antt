-- ===== src/Tests/Batch.antt =====
-- A batch that edits, tests and submits, on a workspace whose fingerprint is its content.
use mini_code_agent_langgrap.Prelude.{
  ◌≡◌, ◌⊎◌, refl, true, false, List, [], ◌∷◌, none, some, String, pos, ok, ◌==◌, All, map,
  if◌then◌else◌,
}
use mini_code_agent_langgrap.Prelude.Json.{end, obj}
use mini_code_agent_langgrap.Contracts.{ToolResult, ExecutedToolCall}
use mini_code_agent_langgrap.Verification.Gate.{
  VerificationGate, create, sync, record_test, submission_error,
}
use mini_code_agent_langgrap.Verification.Gate.Laws.{IsSound, create-IsSound}
use mini_code_agent_langgrap.Verification.Calls.{
  ToolCall, normalize_call, normalize_calls, refuse_legacy_submission, is_edit, demand_verification,
  is_handoff_broken, check_handoff, judge, accepted, outcome,
}
use mini_code_agent_langgrap.Verification.Batch.{
  Host, begin, run_calls, first_pass, run_call, execute_call, attempt, call_back, record_edit,
  settle, after_capture, decide, decide_at, submit_calls, submit_call, submitted_result,
  execute_tool_batch,
}
use mini_code_agent_langgrap.Verification.Batch.Order.{asked, answered, execute_tool_batch-answered}
use mini_code_agent_langgrap.Verification.Batch.Cleared.{
  IsCleared, before_submit, execute_tool_batch-IsCleared,
}
use mini_code_agent_langgrap.Verification.Batch.Invariant.{execute_tool_batch-IsSound}
use mini_code_agent_langgrap.Verification.Batch.Tested.{TestedIn}
use mini_code_agent_langgrap.Verification.Batch.Edits.{execute_tool_batch_verified}

abbrev plain_result : String → ToolResult
plain_result tool = record {
  tool = tool;
  output = "";
  returncode = pos 0;
  duration_ms = 1;
  command = "";
  args = none;
  before_content = none;
  after_content = none;
  file_path = "";
  file_existed_before = none;
  before_hash = "";
  after_hash = "";
  exception_info = "";
  submitted = false;
  submission = "";
  approved = true;
  blocked = false;
  tests_run = none;
  verification_checks = [];
  verification_boundary_checked = false;
  verification_fingerprint = "";
}

abbrev answer : String → ToolResult
answer name =
    if name == "submit"
    then record (plain_result name) { submitted = true; submission = "done" }
    else plain_result name

-- `write_file` turns the workspace into "edited"; every other tool leaves it alone.
abbrev pub host : Host String
host = record {
  execute_tool = λ name args w. (ok (answer name), if name == "write_file" then "edited" else w);
  capture = λ w. (ok w, w);
  ignored = [];
  on_structured_edit = none;
}

abbrev pub call : String → ToolCall
call name = record { name = some name; args = some (obj end); id = none }

-- The model submits first; the batch decides on it last.
abbrev calls : List ToolCall
calls = call "submit" ∷ call "write_file" ∷ call "run_tests" ∷ []

abbrev gate : VerificationGate
gate = create "base" true

batch-submitted : (execute_tool_batch host calls gate "base").0.submitted ≡ true
unfolding execute_tool_batch normalize_call normalize_calls begin sync run_calls first_pass run_call
    execute_call attempt refuse_legacy_submission record_edit settle demand_verification is_edit
    after_capture judge check_handoff is_handoff_broken create call_back record_test decide
    decide_at submission_error submit_calls submit_call submitted_result outcome accepted
batch-submitted = refl

execute_tool_batch-IsCleared_example :
    let (batch, gate', _) = execute_tool_batch host calls gate "base" in
    (w' : String) × (host.capture (before_submit host calls gate "base").world
      ≡ (ok gate'.current_fingerprint, w'))
    × IsCleared gate'
execute_tool_batch-IsCleared_example =
    execute_tool_batch-IsCleared host calls gate "base" batch-submitted

execute_tool_batch_verified_example :
    let (batch, gate', _) = execute_tool_batch host calls gate "base" in
    All
      (λ (c : ExecutedToolCall).
        is_edit c.name c.result ≡ true
        → (w' : String) × (host.capture (before_submit host calls gate "base").world
            ≡ (ok gate'.verified_fingerprint, w'))
          × (((gate'.verified_fingerprint ≡ gate.verified_fingerprint)
                ⊎ (gate'.verified_fingerprint ≡ ""))
              ⊎ TestedIn host calls gate "base" gate'.verified_fingerprint))
      batch.calls
execute_tool_batch_verified_example =
    execute_tool_batch_verified host calls gate "base" batch-submitted

execute_tool_batch-answered_example :
    map answered (execute_tool_batch host calls gate "base").0.calls
    ≡ map asked (normalize_calls 0 calls)
execute_tool_batch-answered_example = execute_tool_batch-answered host calls gate "base"

-- A host whose fingerprint is never the empty text.
abbrev steady : Host (Unit {0})
steady = record {
  execute_tool = λ name args w. (ok (answer name), w);
  capture = λ w. (ok "base", w);
  ignored = [];
  on_structured_edit = none;
}

execute_tool_batch-IsSound_example : IsSound (execute_tool_batch steady calls gate tt).1
execute_tool_batch-IsSound_example =
    execute_tool_batch-IsSound steady (λ w e. cc) calls gate tt (create-IsSound "base" true)
