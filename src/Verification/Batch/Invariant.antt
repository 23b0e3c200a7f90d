-- ===== src/Verification/Batch/Invariant.antt =====
-- A batch keeps the gate sound.
use mini_code_agent_langgrap.Prelude.{
  ◌≡◌, ◌≢◌, refl, true, not, List, [], ◌∷◌, String, Result, ok, err, ◌==◌, contains, is_empty,
  is_zero, arith, Bool-cases, inl, inr,
}
use mini_code_agent_langgrap.Contracts.{ToolResult}
use mini_code_agent_langgrap.Verification.Gate.{VerificationGate, failed, submission_error}
use mini_code_agent_langgrap.Verification.Gate.Laws.{IsSound, sync-IsSound, record_test-IsSound}
use mini_code_agent_langgrap.Verification.Calls.{
  ToolCall, Call, normalize_calls, demand_verification, check_handoff, judge, lose_workspace,
  potentially_mutating_tools, any_submit,
}
use mini_code_agent_langgrap.Verification.Batch.{
  Host, BatchState, begin, after_capture, settle, run_call, first_pass, run_calls, decide_at,
  decide, execute_tool_batch,
}

-- What is left of soundness when verification has just been demanded.
record IsKept (gate : VerificationGate) : Type 0 where
  changes : gate.has_changes ≡ not (gate.current_fingerprint == gate.baseline_fingerprint)
  cleared : gate.status ≡ failed → gate.verified_fingerprint ≡ ""

demand_verification-IsKept :
    (name : String) (result : ToolResult) (gate : VerificationGate)
    → IsSound gate
    → IsKept (demand_verification name result gate)
unfolding demand_verification
demand_verification-IsKept name result gate s = record {
  changes = ground (arith, s.changes);
  cleared = λ h. ground (arith, s.cleared);
}

lose_workspace-IsSound : (gate : VerificationGate) → IsKept gate → IsSound (lose_workspace gate)
unfolding lose_workspace
lose_workspace-IsSound gate k = record {
  changes = k.changes;
  bound = λ h. cc;
  idle = λ h. cc;
  cleared = λ h. refl;
}

judge-IsSound :
    (name : String) (result : ToolResult) (gate : VerificationGate) (fp : String)
    → ((name == "run_tests") ≡ true → fp ≢ "")
    → IsKept gate
    → IsSound (judge name result gate fp).1
unfolding judge
judge-IsSound name result gate fp solid k = elim (Bool-cases (name == "run_tests")) [
  | inl e ↦
      rw e (record_test-IsSound gate (is_zero (check_handoff result fp).returncode) fp (solid e))
  | inr e ↦ rw e (sync-IsSound gate fp k.cleared)
]

-- A capture, if it succeeds, gives a fingerprint.
abbrev IsSolid {ℓ} : {A : Type ℓ} → Result String × A → Type 0
IsSolid (ok fp, w) = fp ≢ ""
IsSolid (err e, w) = Unit

module _ {W : Type 0} where
  after_capture-IsSound :
      (name : String) (result : ToolResult) (gate : VerificationGate) (old : String)
      (p : Result String × W)
      → ((name == "run_tests") ≡ true → IsSolid p)
      → IsKept gate
      → IsSound (after_capture name result gate old p).1.gate
  unfolding after_capture
  after_capture-IsSound name result gate old (ok fp, w) solid k =
      judge-IsSound name result gate fp solid k
  after_capture-IsSound name result gate old (err e, w) solid k = lose_workspace-IsSound gate k

  begin-IsSound :
      (gate : VerificationGate) (p : Result String × W)
      → IsSound gate
      → IsSound (begin gate p).1.gate
  unfolding begin
  begin-IsSound gate (ok fp, w) s = sync-IsSound gate fp s.cleared
  begin-IsSound gate (err e, w) s =
      lose_workspace-IsSound gate (record { changes = s.changes; cleared = s.cleared })

  decide_at-IsSound :
      (s : BatchState W) (p : Result String × W) → IsSound s.gate → IsSound (decide_at s p).1.gate
  unfolding decide_at submission_error
  decide_at-IsSound s (ok fp, w) h = sync-IsSound s.gate fp h.cleared
  decide_at-IsSound s (err e, w) h = h

module _ {W : Type 0} (host : Host W) (solid : (w : W) → IsSolid (host.capture w)) where
  settle-IsSound :
      (name : String) (result : ToolResult) (gate : VerificationGate) (old : String) (w : W)
      → IsSound gate
      → IsSound (settle host name result gate old w).1.gate
  unfolding settle
  settle-IsSound name result gate old w s =
      let k = demand_verification-IsKept name result gate s in
      elim (Bool-cases (contains name potentially_mutating_tools)) [
        | inl e ↦ rw e (after_capture-IsSound name result _ old (host.capture w) (λ _. solid w) k)
        | inr e ↦
            rw e
              (after_capture-IsSound name result _ old (ok old, w) (λ t. absurd (ground arith)) k)
      ]

  first_pass-IsSound :
      (error : String) (call : Call) (s : BatchState W)
      → IsSound s.gate
      → IsSound (first_pass host error call s).1.gate
  unfolding first_pass run_call
  first_pass-IsSound error call s h = elim (Bool-cases (call.name == "submit")) [
    | inl e ↦ rw e h
    | inr e ↦ rw e (elim (Bool-cases (is_empty error)) [
      | inl f ↦ rw f (settle-IsSound call.name _ s.gate s.current_fingerprint _ h)
      | inr f ↦ rw f h
    ])
  ]

  run_calls-IsSound :
      (error : String) (calls : List Call) (s : BatchState W)
      → IsSound s.gate
      → IsSound (run_calls host error calls s).1.gate
  unfolding run_calls
  run_calls-IsSound error [] s h = h
  run_calls-IsSound error (call ∷ rest) s h =
      run_calls-IsSound error rest (first_pass host error call s).1
        (first_pass-IsSound error call s h)

  decide-IsSound :
      (calls : List Call) (s : BatchState W) → IsSound s.gate → IsSound (decide host calls s).1.gate
  unfolding decide
  decide-IsSound calls s h = elim (Bool-cases (any_submit calls)) [
    | inl e ↦ rw e (decide_at-IsSound s (host.capture s.world) h)
    | inr e ↦ rw e h
  ]

  -- Where no capture gives the empty text, a batch turns a sound gate into a sound one.
  pub execute_tool_batch-IsSound :
      (tool_calls : List ToolCall) (gate : VerificationGate) (w : W)
      → IsSound gate
      → IsSound (execute_tool_batch host tool_calls gate w).1
  unfolding execute_tool_batch
  execute_tool_batch-IsSound tool_calls gate w h =
      let calls = normalize_calls 0 tool_calls in
      let (error, s) = begin gate (host.capture w) in
      let (results, s1) = run_calls host error calls s in
      decide-IsSound calls s1
        (run_calls-IsSound error calls s (begin-IsSound gate (host.capture w) h))
