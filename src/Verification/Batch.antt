-- ===== src/Verification/Batch.antt =====
-- `execute_tool_batch` of src/mini_code_agent/verification.py: the calls of one model message under
-- the gate. `capture` is `capture_workspace_fingerprint` at the executor and the ignored paths.
pub mod Order
pub mod Cleared
pub mod Invariant
pub mod Tested
pub mod Demands
pub mod Edits
use mini_code_agent_langgrap.Prelude.{
  ℕ, suc, ◌+◌, Bool, true, false, not, ◌&&◌, ◌||◌, List, [], ◌∷◌, Option, none, some, String, ℤ,
  pos, negsuc, is_zero, Result, ok, err, ◌==◌, is_empty, concat, decimal, contains, if◌then◌else◌,
}
use mini_code_agent_langgrap.Prelude.Results.{describe}
use mini_code_agent_langgrap.Prelude.Json.{Json, Fields, obj, end}
use mini_code_agent_langgrap.Contracts.{
  ToolArgs, given, verification_ignore_paths, ToolResult, ExecutedToolCall, ToolBatchOutcome,
}
use mini_code_agent_langgrap.Verification.Gate.{
  VerificationGate, failed, SubmissionError, sync, record_test, submission_error,
}
use mini_code_agent_langgrap.Verification.Calls.{
  ToolCall, Call, structured_edit_tools, potentially_mutating_tools, blocked_result,
  tool_exception_result, blocked_submission, dict_or_empty, or_default, text_or_empty,
  normalize_call, normalize_calls, refuse_legacy_submission, demand_verification, is_handoff_broken,
  check_handoff, lose_workspace, judge, any_submit, accepted, outcome,
}

pub record BatchState (W : Type 0) : Type 0 where
  pub gate : VerificationGate
  pub current_fingerprint : String
  pub world : W

-- What a batch runs against: the executor's `execute_tool`, `capture_workspace_fingerprint` at the
-- executor and the ignored paths, and the callback that records edits for undo.
pub record Host (W : Type 0) : Type 0 where
  pub execute_tool : String → ToolArgs → W → Result ToolResult × W
  pub capture : W → Result String × W
  pub ignored : List String
  pub on_structured_edit : Option (ToolResult → W → Result (Unit {0}) × W)

unfoldable pub capture_failed : String → SubmissionError
capture_failed text = record {
  exception_info = "WorkspaceFingerprintError";
  output = concat ("Submission blocked because workspace fingerprinting failed: " ∷ text ∷ []);
}

module _ {W : Type 0} where
  unfoldable pub attempt : String → Result ToolResult × W → ToolResult × W
  attempt name (ok result, w) = (result, w)
  attempt name (err e, w) = (tool_exception_result name e.name (describe e), w)

  unfoldable pub edit_recorded : String → ToolResult → Result (Unit {0}) × W → ToolResult × W
  edit_recorded name result (ok _, w) = (result, w)
  edit_recorded name result (err e, w) = (
    tool_exception_result name "UndoRecordError"
        (concat ("The edit succeeded but its undo record could not be saved: " ∷ e.text ∷ [])),
    w,
  )

  -- `on_structured_edit(result)`, if there is a callback.
  unfoldable pub call_back :
      Option (ToolResult → W → Result (Unit {0}) × W) → String → ToolResult → W → ToolResult × W
  call_back none name result w = (result, w)
  call_back (some callback) name result w = edit_recorded name result (callback result w)

  unfoldable pub after_capture :
      String
      → ToolResult
      → VerificationGate
      → String
      → Result String × W
      → ToolResult × BatchState W
  after_capture name result gate old (err e, w) = (
    tool_exception_result name "WorkspaceFingerprintError"
        (concat ("Workspace fingerprint failed after tool execution: " ∷ e.text ∷ [])),
    record { gate = lose_workspace gate; current_fingerprint = old; world = w },
  )
  after_capture name result gate old (ok fingerprint, w) =
      let (result', gate') = judge name result gate fingerprint in
      (result', record { gate = gate'; current_fingerprint = fingerprint; world = w })

  -- The capture before the loop, with the error's text.
  unfoldable pub begin : VerificationGate → Result String × W → String × BatchState W
  begin gate (ok fingerprint, w) =
      ("", record { gate = sync gate fingerprint; current_fingerprint = fingerprint; world = w })
  begin gate (err e, w) = (
    describe e,
    record {
      gate = lose_workspace gate;
      current_fingerprint = gate.current_fingerprint;
      world = w;
    },
  )

  unfoldable pub decide_at :
      BatchState W → Result String × W → Option SubmissionError × BatchState W
  decide_at s (ok fingerprint, w) =
      let (error, gate) = submission_error s.gate fingerprint in
      (error, record { gate = gate; current_fingerprint = fingerprint; world = w })
  decide_at s (err e, w) = (some (capture_failed e.text), record s { world = w })

  unfoldable pub submitted_result : Result ToolResult × W → ToolResult × W
  submitted_result (ok result, w) = (result, w)
  submitted_result (err e, w) = (blocked_submission (capture_failed e.text), w)

module _ {W : Type 0} (host : Host W) where
  unfoldable pub record_edit : String → ToolResult → W → ToolResult × W
  record_edit name result w =
      if is_zero result.returncode && contains name structured_edit_tools
      then call_back host.on_structured_edit name result w
      else (result, w)

  -- What follows the executor's answer.
  unfoldable pub settle :
      String → ToolResult → VerificationGate → String → W → ToolResult × BatchState W
  settle name result gate old w =
      let gate' = demand_verification name result gate in
      if contains name potentially_mutating_tools
      then after_capture name result gate' old (host.capture w)
      else after_capture name result gate' old (ok old, w)

  -- The executor's answer to a call that is not `submit`, as it stands before the gate sees it.
  unfoldable pub execute_call : Call → W → ToolResult × W
  execute_call call w =
      let args =
        if call.name == "run_tests"
        then verification_ignore_paths host.ignored
        else given call.args in
      let (answer, w1) = attempt call.name (host.execute_tool call.name args w) in
      record_edit call.name (refuse_legacy_submission call.name answer) w1

  unfoldable pub run_call : Call → BatchState W → ToolResult × BatchState W
  run_call call s =
      let (result, w) = execute_call call s.world in
      settle call.name result s.gate s.current_fingerprint w

  -- A submit call leaves its place open; after a failed first capture no other call is executed.
  unfoldable pub first_pass : String → Call → BatchState W → Option ToolResult × BatchState W
  first_pass error call s =
      if call.name == "submit"
      then (none, s)
      else if not (is_empty error)
      then (some (tool_exception_result call.name "WorkspaceFingerprintError" error), s)
      else (let (result, s') = run_call call s in (some result, s'))

  -- The first loop.
  unfoldable pub run_calls :
      String → List Call → BatchState W → List (Option ToolResult) × BatchState W
  run_calls error [] s = ([], s)
  run_calls error (call ∷ rest) s =
      let (result, s') = first_pass error call s in
      let (results, s'') = run_calls error rest s' in (result ∷ results, s'')

  -- The decision on all submit calls, after the other calls.
  unfoldable pub decide : List Call → BatchState W → Option SubmissionError × BatchState W
  decide calls s = if any_submit calls then decide_at s (host.capture s.world) else (none, s)

  unfoldable pub submit_call : Option SubmissionError → Call → W → ToolResult × W
  submit_call (some error) call w = (blocked_submission error, w)
  submit_call none call w = submitted_result (host.execute_tool "submit" (given call.args) w)

  -- The second loop, joined with the results of the first.
  unfoldable pub submit_calls :
      Option SubmissionError → List Call → List (Option ToolResult) → W → List ExecutedToolCall × W
  submit_calls error (call ∷ calls) (some result ∷ results) w =
      let (executed, w') = submit_calls error calls results w in
      (
        record { name = call.name; args = call.args; tool_call_id = call.id; result = result }
            ∷ executed,
        w',
      )
  submit_calls error (call ∷ calls) (none ∷ results) w =
      let (result, w1) = submit_call error call w in
      let (executed, w') = submit_calls error calls results w1 in
      (
        record { name = call.name; args = call.args; tool_call_id = call.id; result = result }
            ∷ executed,
        w',
      )
  submit_calls error _ _ w = ([], w)

  unfoldable pub execute_tool_batch :
      List ToolCall → VerificationGate → W → ToolBatchOutcome × VerificationGate × W
  execute_tool_batch tool_calls gate w =
      let calls = normalize_calls 0 tool_calls in
      let (error, s) = begin gate (host.capture w) in
      let (results, s1) = run_calls error calls s in
      let (refusal, s2) = decide calls s1 in
      let (executed, w') = submit_calls refusal calls results s2.world in
      (outcome executed, s2.gate, w')
