-- ===== src/Verification/Batch/Demands.antt =====
-- An approved, successful call of a tool that may change files makes the batch ask for verification:
-- the gate that the batch returns demands it.
use mini_code_agent_langgrap.Prelude.{
  ◌≡◌, ◌≢◌, refl, subst, true, false, not, ◌&&◌, List, [], ◌∷◌, Option, none, some, String, Result,
  ok, err, ◌==◌, contains, is_empty, is_zero, eq_iff, All, arith, Bool-cases, inl, inr, ◌⊎◌,
}
use mini_code_agent_langgrap.Contracts.{ToolResult, ExecutedToolCall}
use mini_code_agent_langgrap.Verification.Gate.{
  VerificationGate, SubmissionError, sync, record_test, submission_error,
}
use mini_code_agent_langgrap.Verification.Calls.{
  ToolCall, Call, normalize_calls, is_edit, is_handoff_broken, demand_verification, check_handoff,
  judge, lose_workspace, potentially_mutating_tools, any_submit, tool_exception_result,
}
use mini_code_agent_langgrap.Verification.Batch.{
  Host, BatchState, begin, after_capture, settle, execute_call, run_call, first_pass, run_calls,
  decide_at, decide, submit_call, submit_calls, execute_tool_batch,
}
use mini_code_agent_langgrap.Verification.Batch.Order.{Fits, outcome-calls, run_calls-Fits}

abbrev pub Requires : VerificationGate → Type 0
Requires gate = gate.require_verification ≡ true

judge-Requires :
    (name : String) (result : ToolResult) (gate : VerificationGate) (fp : String)
    → (judge name result gate fp).1.require_verification ≡ gate.require_verification
unfolding judge sync record_test
judge-Requires name result gate fp = ground arith

check_handoff-is_edit :
    (name : String) (result : ToolResult) (fp : String)
    → is_edit name (check_handoff result fp) ≡ true
    → is_edit name result ≡ true
unfolding check_handoff is_edit
check_handoff-is_edit name result fp h = elim (Bool-cases (is_handoff_broken result fp)) [
  | inl e ↦ absurd (ground (arith, contains name potentially_mutating_tools))
  | inr e ↦ rw e at h
]

judge-is_edit :
    (name : String) (result : ToolResult) (gate : VerificationGate) (fp : String)
    → is_edit name (judge name result gate fp).0 ≡ true
    → is_edit name result ≡ true
unfolding judge
judge-is_edit name result gate fp h = elim (Bool-cases (name == "run_tests")) [
  | inr e ↦ rw e at h
  | inl e ↦ check_handoff-is_edit name result fp (rw e at h)
]

-- An edit's result leaves a gate that requires verification.
abbrev pub Demands : String → ToolResult → VerificationGate → Type 0
Demands name result gate = is_edit name result ≡ true → Requires gate

-- The first loop's result for a call, if it has one, demands as an edit does.
abbrev DemandsFirst : Call → Option ToolResult → VerificationGate → Type 0
DemandsFirst call none gate = Unit
DemandsFirst call (some result) gate = Demands call.name result gate

blocked-Demands :
    (name exception_info output : String) (gate : VerificationGate)
    → Demands name (tool_exception_result name exception_info output) gate
unfolding is_edit tool_exception_result
blocked-Demands name exception_info output gate h = absurd (ground arith)

demand_verification-Requires :
    (name : String) (result : ToolResult) (gate : VerificationGate)
    → Requires gate ⊎ (is_edit name result ≡ true)
    → Requires (demand_verification name result gate)
unfolding demand_verification
demand_verification-Requires name result gate h = ground arith

module _ {W : Type 0} where
  after_capture-Requires :
      (name : String) (result : ToolResult) (gate : VerificationGate) (old : String)
      (p : Result String × W)
      → (after_capture name result gate old p).1.gate.require_verification
        ≡ gate.require_verification
  unfolding after_capture lose_workspace
  after_capture-Requires name result gate old (ok fp, w) = judge-Requires name result gate fp
  after_capture-Requires name result gate old (err e, w) = refl

  after_capture-is_edit :
      (name : String) (result : ToolResult) (gate : VerificationGate) (old : String)
      (p : Result String × W)
      → is_edit name (after_capture name result gate old p).0 ≡ true
      → is_edit name result ≡ true
  unfolding after_capture
  after_capture-is_edit name result gate old (ok fp, w) h = judge-is_edit name result gate fp h
  after_capture-is_edit name result gate old (err e, w) h =
      cc (blocked-Demands name _ _ (record gate { require_verification = false }) h)

module _ {W : Type 0} (host : Host W) where
  settle-Requires :
      (name : String) (result : ToolResult) (gate : VerificationGate) (old : String) (w : W)
      → Requires gate ⊎ (is_edit name (settle host name result gate old w).0 ≡ true)
      → Requires (settle host name result gate old w).1.gate
  unfolding settle
  settle-Requires name result gate old w h =
      elim (Bool-cases (contains name potentially_mutating_tools)) [
        | inl e ↦ rw e (
            rw after_capture-Requires (
              demand_verification-Requires name result gate (elim h [
                | inl r ↦ inl r
                | inr d ↦ inr (after_capture-is_edit name result _ old (host.capture w) (rw e at d))
              ])))
        | inr e ↦ rw e (
            rw after_capture-Requires (
              demand_verification-Requires name result gate (elim h [
                | inl r ↦ inl r
                | inr d ↦ inr (after_capture-is_edit name result _ old (ok old, w) (rw e at d))
              ])))
      ]

  run_call-Requires :
      (call : Call) (s : BatchState W)
      → Requires s.gate ⊎ (is_edit call.name (run_call host call s).0 ≡ true)
      → Requires (run_call host call s).1.gate
  unfolding run_call
  run_call-Requires call s h =
      let p : ToolResult × W = execute_call host call s.world in
      settle-Requires call.name p.0 s.gate s.current_fingerprint p.1 h

  first_pass-Requires :
      (error : String) (call : Call) (s : BatchState W)
      → let (o, s') = first_pass host error call s in
        (Requires s.gate → Requires s'.gate) × DemandsFirst call o s'.gate
  unfolding first_pass
  first_pass-Requires error call s = elim (Bool-cases (call.name == "submit")) [
    | inl e ↦ rw e (λ h. h, tt)
    | inr e ↦ rw e (elim (Bool-cases (is_empty error)) [
      | inl f ↦ rw f (λ h. run_call-Requires call s (inl h), λ d. run_call-Requires call s (inr d))
      | inr f ↦ rw f (λ h. h, blocked-Demands call.name "WorkspaceFingerprintError" error s.gate)
    ])
  ]

abbrev AllFirst : List Call → List (Option ToolResult) → VerificationGate → Type 0
AllFirst (call ∷ calls) (o ∷ results) gate = DemandsFirst call o gate × AllFirst calls results gate
AllFirst _ _ gate = Unit

DemandsFirst-mono :
    (call : Call) (o : Option ToolResult) (g g' : VerificationGate)
    → (Requires g → Requires g')
    → DemandsFirst call o g
    → DemandsFirst call o g'
DemandsFirst-mono call none g g' f h = tt
DemandsFirst-mono call (some r) g g' f h = λ e. f (h e)

is_edit-submit :
    (name : String) (result : ToolResult) → (name == "submit") ≡ true → is_edit name result ≢ true
unfolding is_edit
is_edit-submit name result h e = cc (
    subst
      (λ x.
        (contains x potentially_mutating_tools
          && (is_zero result.returncode
              && (result.approved && not (result.exception_info == "ReadOnlyChatMode"))))
        ≡ true)
      ((eq_iff name "submit").0 h) e)

-- Every edit among the executed calls demands.
abbrev pub AllDemand : List ExecutedToolCall → VerificationGate → Type 0
AllDemand executed gate =
    All (λ (call : ExecutedToolCall). Demands call.name call.result gate) executed

module _ {W : Type 0} (host : Host W) where
  run_calls-Requires :
      (error : String) (calls : List Call) (s : BatchState W)
      → let (results, s') = run_calls host error calls s in
        (Requires s.gate → Requires s'.gate) × AllFirst calls results s'.gate
  unfolding run_calls
  run_calls-Requires error [] s = (λ h. h, tt)
  run_calls-Requires error (call ∷ rest) s =
      let p : Option ToolResult × BatchState W = first_pass host error call s in
      let (keep, demand) = first_pass-Requires host error call s in
      let (keep_rest, demand_rest) = run_calls-Requires error rest p.1 in
      (
        λ h. keep_rest (keep h),
        (
          DemandsFirst-mono call p.0 p.1.gate (run_calls host error rest p.1).1.gate keep_rest
              demand,
          demand_rest,
        ),
      )

  decide_at-Requires :
      (s : BatchState W) (p : Result String × W) → Requires s.gate → Requires (decide_at s p).1.gate
  unfolding decide_at submission_error sync
  decide_at-Requires s (ok fp, w) h = h
  decide_at-Requires s (err e, w) h = h

  decide-Requires :
      (calls : List Call) (s : BatchState W)
      → Requires s.gate
      → Requires (decide host calls s).1.gate
  unfolding decide
  decide-Requires calls s h = elim (Bool-cases (any_submit calls)) [
    | inl e ↦ rw e (decide_at-Requires s (host.capture s.world) h)
    | inr e ↦ rw e h
  ]

  submit_calls-AllDemand :
      (refusal : Option SubmissionError) (calls : List Call) (results : List (Option ToolResult))
      (w : W) (g g' : VerificationGate)
      → (Requires g → Requires g')
      → Fits calls results
      → AllFirst calls results g
      → AllDemand (submit_calls host refusal calls results w).0 g'
  unfolding submit_calls
  submit_calls-AllDemand o [] [] w g g' f h d = tt
  submit_calls-AllDemand o [] (r ∷ rs) w g g' f h d = absurd h
  submit_calls-AllDemand o (c ∷ cs) [] w g g' f h d = absurd h
  submit_calls-AllDemand o (c ∷ cs) (none ∷ rs) w g g' f h d =
      let p : ToolResult × W = submit_call host o c w in
      (
        λ e. absurd (is_edit-submit c.name p.0 h.0 e),
        submit_calls-AllDemand o cs rs p.1 g g' f h.1 d.1,
      )
  submit_calls-AllDemand o (c ∷ cs) (some r ∷ rs) w g g' f h d =
      (λ e. f (d.0 e), submit_calls-AllDemand o cs rs w g g' f h.1 d.1)

  pub execute_tool_batch-AllDemand :
      (tool_calls : List ToolCall) (gate : VerificationGate) (w : W)
      → let (batch, gate', _) = execute_tool_batch host tool_calls gate w in
        AllDemand batch.calls gate'
  unfolding execute_tool_batch
  execute_tool_batch-AllDemand tool_calls gate w =
      let calls = normalize_calls 0 tool_calls in
      let (error, s) = begin gate (host.capture w) in
      let (results, s1) = run_calls host error calls s in
      let (refusal, s2) = decide host calls s1 in
      rw outcome-calls (
        submit_calls-AllDemand refusal calls results s2.world s1.gate s2.gate
          (decide-Requires calls s1) (run_calls-Fits host error calls s)
          (run_calls-Requires error calls s).1)
