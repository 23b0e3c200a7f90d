-- ===== src/Verification/Batch/Tested.antt =====
-- Where the verified fingerprint of a batch's gate comes from.
use mini_code_agent_langgrap.Prelude.{
  ◌≡◌, refl, sym, ◌∙◌, ap, subst, true, List, [], ◌∷◌, String, Result, ok, err, ◌==◌, contains,
  is_empty, is_zero, eq_iff, arith, Bool-cases, inl, inr, ◌⊎◌,
}
use mini_code_agent_langgrap.Contracts.{ToolResult}
use mini_code_agent_langgrap.Verification.Gate.{
  VerificationGate, sync, record_test, submission_error,
}
use mini_code_agent_langgrap.Verification.Calls.{
  ToolCall, Call, normalize_calls, demand_verification, judge, lose_workspace,
  potentially_mutating_tools, any_submit,
}
use mini_code_agent_langgrap.Verification.Batch.{
  Host, BatchState, begin, after_capture, settle, execute_call, run_call, first_pass, run_calls,
  decide_at, decide, execute_tool_batch,
}

-- The call is a test that passed, after which the workspace had the fingerprint.
abbrev TestPassed : {W : Type 0} → Host W → String → Call → BatchState W → String → Type 0
TestPassed host error call s fp =
    (is_empty error ≡ true)
    × (call.name ≡ "run_tests")
    × (is_zero (run_call host call s).0.returncode ≡ true)
    × ((host.capture (execute_call host call s.world).1).0 ≡ ok fp)

-- One of the calls, run one after the other from `s`, is such a test; `error` is that of the first
-- capture, which is empty where there is none.
abbrev Tested : {W : Type 0} → Host W → String → List Call → BatchState W → String → Type 0
Tested host error [] s fp = ⊥
Tested host error (call ∷ rest) s fp =
    TestPassed host error call s fp ⊎ Tested host error rest (first_pass host error call s).1 fp

-- One of a batch's calls was a test that passed, after which the workspace had the fingerprint.
abbrev pub TestedIn : {W : Type 0} → Host W → List ToolCall → VerificationGate → W → String → Type 0
TestedIn host tool_calls gate w fp =
    let (error, s) = begin gate (host.capture w) in
    Tested host error (normalize_calls 0 tool_calls) s fp

demand_verification-verified :
    (name : String) (result : ToolResult) (gate : VerificationGate)
    → (demand_verification name result gate).verified_fingerprint ≡ gate.verified_fingerprint
unfolding demand_verification
demand_verification-verified name result gate = ground arith

judge-verified :
    (name : String) (result : ToolResult) (gate : VerificationGate) (fp : String)
    → let (result', gate') = judge name result gate fp in
      ((gate'.verified_fingerprint ≡ gate.verified_fingerprint) ⊎ (gate'.verified_fingerprint ≡ ""))
      ⊎ (((name == "run_tests") ≡ true)
          × (is_zero result'.returncode ≡ true)
          × (gate'.verified_fingerprint ≡ fp))
unfolding judge sync record_test
judge-verified name result gate fp = ground arith

-- The verified fingerprint of the state after a call is the old one `before`, or it was cleared, or the
-- call is a test that passed, and `captured` is the capture after it.
abbrev Judged : {W : Type 0} → String → String → Result String → ToolResult × BatchState W → Type 0
Judged name before captured (result, s) =
    ((s.gate.verified_fingerprint ≡ before) ⊎ (s.gate.verified_fingerprint ≡ ""))
    ⊎ (((name == "run_tests") ≡ true)
        × (is_zero result.returncode ≡ true)
        × (captured ≡ ok s.gate.verified_fingerprint))

module _ {W : Type 0} where
  after_capture-Judged :
      (name : String) (result : ToolResult) (gate : VerificationGate) (old : String)
      (p : Result String × W)
      → Judged name gate.verified_fingerprint p.0 (after_capture name result gate old p)
  unfolding after_capture lose_workspace
  after_capture-Judged name result gate old (err e, w) = inl (inr refl)
  after_capture-Judged name result gate old (ok fp, w) = elim (judge-verified name result gate fp) [
    | inl kept ↦ inl kept
    | inr (tests, passed, e) ↦ inr (tests, passed, ap ok (sym e))
  ]

module _ {W : Type 0} (host : Host W) where
  settle-Judged :
      (name : String) (result : ToolResult) (gate : VerificationGate) (old : String) (w : W)
      → Judged name gate.verified_fingerprint
          (host.capture w).0
          (settle host name result gate old w)
  unfolding settle
  settle-Judged name result gate old w =
      let demanded = demand_verification name result gate in
      let same = demand_verification-verified name result gate in
      elim (Bool-cases (contains name potentially_mutating_tools)) [
        | inl e ↦ rw e (
            subst
              (λ v.
                Judged name v (host.capture w).0
                  (after_capture name result demanded old (host.capture w)))
              same (after_capture-Judged name result demanded old (host.capture w)))
        | inr e ↦ rw e (elim (after_capture-Judged name result demanded old (ok old, w)) [
          | inl (inl kept) ↦ inl (inl (kept ∙ same))
          | inl (inr cleared) ↦ inl (inr cleared)
          | inr (tests, _, _) ↦ absurd (ground arith)
        ])
      ]

  -- The verified fingerprint that calls leave: an old one, none, or that of one of them.
  abbrev Minted : String → List Call → BatchState W → String → Type 0
  Minted error calls s fp =
      ((fp ≡ s.gate.verified_fingerprint) ⊎ (fp ≡ "")) ⊎ Tested host error calls s fp

  first_pass-Minted :
      (error : String) (call : Call) (s : BatchState W)
      → let fp = (first_pass host error call s).1.gate.verified_fingerprint in
        ((fp ≡ s.gate.verified_fingerprint) ⊎ (fp ≡ "")) ⊎ TestPassed host error call s fp
  unfolding first_pass run_call
  first_pass-Minted error call s = elim (Bool-cases (call.name == "submit")) [
    | inl e ↦ rw e (inl (inl refl))
    | inr e ↦ rw e (elim (Bool-cases (is_empty error)) [
      | inr f ↦ rw f (inl (inl refl))
      | inl f ↦
          let p : ToolResult × W = execute_call host call s.world in
          rw f (elim (settle-Judged call.name p.0 s.gate s.current_fingerprint p.1) [
            | inl kept ↦ inl kept
            | inr (tests, passed, captured) ↦
                inr (refl, (eq_iff call.name "run_tests").0 tests, passed, captured)
          ])
    ])
  ]

  run_calls-Minted :
      (error : String) (calls : List Call) (s : BatchState W)
      → Minted error calls s (run_calls host error calls s).1.gate.verified_fingerprint
  unfolding run_calls
  run_calls-Minted error [] s = inl (inl refl)
  run_calls-Minted error (call ∷ rest) s =
      let s1 : BatchState W = (first_pass host error call s).1 in
      elim (run_calls-Minted error rest s1) [
        | inr later ↦ inr (inr later)
        | inl (inr cleared) ↦ inl (inr cleared)
        | inl (inl same) ↦ elim (first_pass-Minted error call s) [
          | inl (inl kept) ↦ inl (inl (same ∙ kept))
          | inl (inr cleared) ↦ inl (inr (same ∙ cleared))
          | inr passed ↦ inr (inl (subst (TestPassed host error call s) (sym same) passed))
        ]
      ]

  decide-verified :
      (calls : List Call) (s : BatchState W)
      → (decide host calls s).1.gate.verified_fingerprint ≡ s.gate.verified_fingerprint
  unfolding decide decide_at submission_error sync
  decide-verified calls s = elim (Bool-cases (any_submit calls)) [
    | inl e ↦ rw e (at (host.capture s.world))
    | inr e ↦ rw e refl
  ]
    where
      at :
          (p : Result String × W)
          → (decide_at s p).1.gate.verified_fingerprint ≡ s.gate.verified_fingerprint
      at (ok fp, w) = refl
      at (err e, w) = refl

  begin-verified :
      (gate : VerificationGate) (p : Result String × W)
      → let fp = (begin gate p).1.gate.verified_fingerprint in
        (fp ≡ gate.verified_fingerprint) ⊎ (fp ≡ "")
  unfolding begin sync lose_workspace
  begin-verified gate (ok fp, w) = inl refl
  begin-verified gate (err e, w) = inr refl

  pub execute_tool_batch-Minted :
      (tool_calls : List ToolCall) (gate : VerificationGate) (w : W)
      → let fp = (execute_tool_batch host tool_calls gate w).1.verified_fingerprint in
        ((fp ≡ gate.verified_fingerprint) ⊎ (fp ≡ "")) ⊎ TestedIn host tool_calls gate w fp
  unfolding execute_tool_batch
  execute_tool_batch-Minted tool_calls gate w =
      let calls = normalize_calls 0 tool_calls in
      let (error, s) = begin gate (host.capture w) in
      let (results, s1) = run_calls host error calls s in
      let kept = decide-verified calls s1 in
      elim (run_calls-Minted error calls s) [
        | inr tested ↦ inr (subst (Tested host error calls s) (sym kept) tested)
        | inl (inr cleared) ↦ inl (inr (kept ∙ cleared))
        | inl (inl same) ↦ elim (begin-verified gate (host.capture w)) [
          | inl carried ↦ inl (inl (kept ∙ same ∙ carried))
          | inr cleared ↦ inl (inr (kept ∙ same ∙ cleared))
        ]
      ]
