-- ===== src/Verification/Batch/Order.antt =====
-- Every call of a batch gets exactly one result, in the model's order; only a submit call can
-- submit.
use mini_code_agent_langgrap.Prelude.{
  ℕ, suc, ◌≡◌, refl, ap, true, false, List, [], ◌∷◌, map, Option, none, some, String, Result, ok,
  err, ◌==◌, is_empty, length, arith, Bool-cases, inl, inr, if◌then◌else◌,
}
use mini_code_agent_langgrap.Prelude.Json.{Fields}
use mini_code_agent_langgrap.Contracts.{
  given, verification_ignore_paths, ToolResult, ExecutedToolCall,
}
use mini_code_agent_langgrap.Verification.Gate.{VerificationGate, SubmissionError}
use mini_code_agent_langgrap.Verification.Calls.{
  ToolCall, Call, normalize_calls, tool_exception_result, refuse_legacy_submission,
  demand_verification, check_handoff, judge, outcome,
}
use mini_code_agent_langgrap.Verification.Batch.{
  BatchState, Host, call_back, attempt, edit_recorded, record_edit, after_capture, settle,
  execute_call, run_call, first_pass, run_calls, submit_call, submit_calls, execute_tool_batch,
  begin, decide,
}

-- The results of the first loop: open at a submit call, and not submitted elsewhere.
abbrev pub Fits : List Call → List (Option ToolResult) → Type 0
Fits [] [] = Unit
Fits (call ∷ calls) (none ∷ results) = ((call.name == "submit") ≡ true) × Fits calls results
Fits (call ∷ calls) (some result ∷ results) = (result.submitted ≡ false) × Fits calls results
Fits _ _ = ⊥

Fits-cons :
    (call : Call) (o : Option ToolResult) (calls : List Call) (results : List (Option ToolResult))
    → Fits (call ∷ []) (o ∷ [])
    → Fits calls results
    → Fits (call ∷ calls) (o ∷ results)
Fits-cons call none calls results h t = (h.0, t)
Fits-cons call (some r) calls results h t = (h.0, t)

-- A call or its execution, by name, arguments and id.
abbrev pub asked : Call → String × Fields × String
asked call = (call.name, call.args, call.id)

abbrev pub answered : ExecutedToolCall → String × Fields × String
answered call = (call.name, call.args, call.tool_call_id)

abbrev Unsubmitted : ToolResult → Type 0
Unsubmitted result = result.submitted ≡ false

refuse_legacy_submission-Unsubmitted :
    (name : String) (result : ToolResult) → Unsubmitted (refuse_legacy_submission name result)
unfolding refuse_legacy_submission
refuse_legacy_submission-Unsubmitted name result = ground arith

judge-Unsubmitted :
    (name : String) (result : ToolResult) (gate : VerificationGate) (fp : String)
    → Unsubmitted result
    → Unsubmitted (judge name result gate fp).0
unfolding judge check_handoff
judge-Unsubmitted name result gate fp h = ground arith

length-normalize_calls :
    (index : ℕ) (calls : List ToolCall) → length (normalize_calls index calls) ≡ length calls
unfolding normalize_calls
length-normalize_calls index [] = refl
length-normalize_calls index (call ∷ rest) = ap suc (length-normalize_calls (suc index) rest)

pub outcome-calls : (executed : List ExecutedToolCall) → (outcome executed).calls ≡ executed
unfolding outcome
outcome-calls executed = ground arith

module _ {W : Type 0} where
  edit_recorded-Unsubmitted :
      (name : String) (result : ToolResult) (p : Result (Unit {0}) × W)
      → Unsubmitted result
      → Unsubmitted (edit_recorded name result p).0
  unfolding edit_recorded tool_exception_result
  edit_recorded-Unsubmitted name result (ok _, w) h = h
  edit_recorded-Unsubmitted name result (err e, w) h = refl

  call_back-Unsubmitted :
      (c : Option (ToolResult → W → Result (Unit {0}) × W)) (name : String) (result : ToolResult)
      (w : W)
      → Unsubmitted result
      → Unsubmitted (call_back c name result w).0
  unfolding call_back
  call_back-Unsubmitted none name result w h = h
  call_back-Unsubmitted (some f) name result w h =
      edit_recorded-Unsubmitted name result (f result w) h

  after_capture-Unsubmitted :
      (name : String) (result : ToolResult) (gate : VerificationGate) (old : String)
      (p : Result String × W)
      → Unsubmitted result
      → Unsubmitted (after_capture name result gate old p).0
  unfolding after_capture tool_exception_result
  after_capture-Unsubmitted name result gate old (ok fp, w) h =
      judge-Unsubmitted name result gate fp h
  after_capture-Unsubmitted name result gate old (err e, w) h = refl

module _ {W : Type 0} (host : Host W) where
  record_edit-Unsubmitted :
      (name : String) (result : ToolResult) (w : W)
      → Unsubmitted result
      → Unsubmitted (record_edit host name result w).0
  unfolding record_edit
  record_edit-Unsubmitted name result w h =
      ground (arith, call_back-Unsubmitted host.on_structured_edit name result w)

  settle-Unsubmitted :
      (name : String) (result : ToolResult) (gate : VerificationGate) (old : String) (w : W)
      → Unsubmitted result
      → Unsubmitted (settle host name result gate old w).0
  unfolding settle
  settle-Unsubmitted name result gate old w h =
      let gate' = demand_verification name result gate in
      ground (
        arith,
        after_capture-Unsubmitted name result gate' old (host.capture w),
        after_capture-Unsubmitted name result gate' old (ok old, w),
      )

  execute_call-Unsubmitted : (call : Call) (w : W) → Unsubmitted (execute_call host call w).0
  unfolding execute_call
  execute_call-Unsubmitted call w =
      let args =
        if call.name == "run_tests"
        then verification_ignore_paths host.ignored
        else given call.args in
      let p : ToolResult × W = attempt call.name (host.execute_tool call.name args w) in
      record_edit-Unsubmitted call.name (refuse_legacy_submission call.name p.0) p.1
        (refuse_legacy_submission-Unsubmitted call.name p.0)

  run_call-Unsubmitted : (call : Call) (s : BatchState W) → Unsubmitted (run_call host call s).0
  unfolding run_call
  run_call-Unsubmitted call s =
      let p : ToolResult × W = execute_call host call s.world in
      settle-Unsubmitted call.name p.0 s.gate s.current_fingerprint p.1
        (execute_call-Unsubmitted call s.world)

  first_pass-Fits :
      (error : String) (call : Call) (s : BatchState W)
      → Fits (call ∷ []) ((first_pass host error call s).0 ∷ [])
  unfolding first_pass tool_exception_result
  first_pass-Fits error call s = elim (Bool-cases (call.name == "submit")) [
    | inl e ↦ rw e (e, tt)
    | inr e ↦ rw e (elim (Bool-cases (is_empty error)) [
      | inl f ↦ rw f (run_call-Unsubmitted call s, tt)
      | inr f ↦ rw f (refl, tt)
    ])
  ]

  pub run_calls-Fits :
      (error : String) (calls : List Call) (s : BatchState W)
      → Fits calls (run_calls host error calls s).0
  unfolding run_calls
  run_calls-Fits error [] s = tt
  run_calls-Fits error (call ∷ rest) s =
      let p : Option ToolResult × BatchState W = first_pass host error call s in
      Fits-cons call p.0 rest (run_calls host error rest p.1).0 (first_pass-Fits error call s)
        (run_calls-Fits error rest p.1)

  submit_calls-answered :
      (refusal : Option SubmissionError) (calls : List Call) (results : List (Option ToolResult))
      (w : W)
      → Fits calls results
      → map answered (submit_calls host refusal calls results w).0 ≡ map asked calls
  unfolding submit_calls
  submit_calls-answered refusal [] [] w h = refl
  submit_calls-answered refusal [] (r ∷ rs) w h = absurd h
  submit_calls-answered refusal (c ∷ cs) [] w h = absurd h
  submit_calls-answered refusal (c ∷ cs) (none ∷ rs) w h =
      rw (submit_calls-answered refusal cs rs (submit_call host refusal c w).1 h.1)
  submit_calls-answered refusal (c ∷ cs) (some r ∷ rs) w h =
      rw (submit_calls-answered refusal cs rs w h.1)

  -- The executed calls of a batch are the model's calls, all of them and in their order, each with
  -- its name, its arguments and its id (or the default for a missing id).
  pub execute_tool_batch-answered :
      (tool_calls : List ToolCall) (gate : VerificationGate) (w : W)
      → map answered (execute_tool_batch host tool_calls gate w).0.calls
        ≡ map asked (normalize_calls 0 tool_calls)
  unfolding execute_tool_batch
  execute_tool_batch-answered tool_calls gate w =
      let calls = normalize_calls 0 tool_calls in
      let (error, s) = begin gate (host.capture w) in
      let (results, s1) = run_calls host error calls s in
      let (refusal, s2) = decide host calls s1 in
      rw outcome-calls
        (submit_calls-answered refusal calls results s2.world (run_calls-Fits error calls s))
