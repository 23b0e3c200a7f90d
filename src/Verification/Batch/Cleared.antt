-- ===== src/Verification/Batch/Cleared.antt =====
-- A batch that submits has passed the gate, at a fingerprint captured after all its other calls.
use mini_code_agent_langgrap.Prelude.{
  ◌≡◌, ◌≢◌, ◌⊎◌, inl, inr, refl, sym, ap, true, false, List, [], ◌∷◌, Option, none, some, String,
  Result, ok, err, eq_iff, All, arith, Bool-cases,
}
use mini_code_agent_langgrap.Contracts.{ToolResult, ExecutedToolCall}
use mini_code_agent_langgrap.Verification.Gate.{
  VerificationGate, failed, SubmissionError, sync, submission_error,
}
use mini_code_agent_langgrap.Verification.Calls.{
  ToolCall, Call, normalize_calls, accepted, outcome, any_submit, blocked_submission,
}
use mini_code_agent_langgrap.Verification.Batch.{
  Host, BatchState, begin, run_calls, decide_at, decide, submit_call, submit_calls,
  execute_tool_batch,
}
use mini_code_agent_langgrap.Verification.Batch.Order.{Fits, run_calls-Fits}

abbrev Unsubmitted : List ExecutedToolCall → Type 0
Unsubmitted = All (λ (call : ExecutedToolCall). call.result.submitted ≡ false)

accepted-Unsubmitted :
    (executed : List ExecutedToolCall) → Unsubmitted executed → accepted executed ≡ none
unfolding accepted
accepted-Unsubmitted [] h = refl
accepted-Unsubmitted (call ∷ rest) h = ground (arith, accepted-Unsubmitted rest h.1)

outcome-Unsubmitted :
    (executed : List ExecutedToolCall) → Unsubmitted executed → (outcome executed).submitted ≡ false
unfolding outcome
outcome-Unsubmitted executed h = ground (arith, accepted-Unsubmitted executed h)

-- The gate lets the workspace through at its current fingerprint.
abbrev pub IsCleared : VerificationGate → Type 0
IsCleared gate =
    (gate.status ≢ failed)
    × (((gate.current_fingerprint ≡ gate.baseline_fingerprint)
          × (gate.require_verification ≡ false))
        ⊎ (gate.verified_fingerprint ≡ gate.current_fingerprint))

submission_error-IsCleared :
    (gate : VerificationGate) (fp : String)
    → (submission_error gate fp).0 ≡ none
    → ((submission_error gate fp).1.current_fingerprint ≡ fp)
      × IsCleared (submission_error gate fp).1
unfolding submission_error sync
submission_error-IsCleared gate fp h = (
  refl,
  (
    ground arith,
    ground (arith, eq_iff fp gate.baseline_fingerprint, eq_iff gate.verified_fingerprint fp),
  ),
)

module _ {W : Type 0} where
  decide_at-none :
      (s : BatchState W) (p : Result String × W)
      → (decide_at s p).0 ≡ none
      → (w : W) × (p ≡ (ok (decide_at s p).1.gate.current_fingerprint, w))
        × IsCleared (decide_at s p).1.gate
  unfolding decide_at
  decide_at-none s (ok fp, w) h =
      let (e, c) = submission_error-IsCleared s.gate fp h in (w, ap (λ x. (ok x, w)) (sym e), c)
  decide_at-none s (err e, w) h = cc

module _ {W : Type 0} (host : Host W) where
  submit_calls-refused :
      (e : SubmissionError) (calls : List Call) (results : List (Option ToolResult)) (w : W)
      → Fits calls results
      → Unsubmitted (submit_calls host (some e) calls results w).0
  unfolding submit_calls submit_call blocked_submission
  submit_calls-refused e [] [] w h = tt
  submit_calls-refused e [] (r ∷ rs) w h = absurd h
  submit_calls-refused e (c ∷ cs) [] w h = absurd h
  submit_calls-refused e (c ∷ cs) (none ∷ rs) w h = (refl, submit_calls-refused e cs rs w h.1)
  submit_calls-refused e (c ∷ cs) (some r ∷ rs) w h = (h.0, submit_calls-refused e cs rs w h.1)

  submit_calls-no_submit :
      (refusal : Option SubmissionError) (calls : List Call) (results : List (Option ToolResult))
      (w : W)
      → Fits calls results
      → any_submit calls ≡ false
      → Unsubmitted (submit_calls host refusal calls results w).0
  unfolding submit_calls
  submit_calls-no_submit o [] [] w h n = tt
  submit_calls-no_submit o [] (r ∷ rs) w h n = absurd h
  submit_calls-no_submit o (c ∷ cs) [] w h n = absurd h
  submit_calls-no_submit o (c ∷ cs) (none ∷ rs) w h n = absurd (ground arith)
  submit_calls-no_submit o (c ∷ cs) (some r ∷ rs) w h n =
      (h.0, submit_calls-no_submit o cs rs w h.1 (ground arith))

  -- The state after all calls that are not `submit`.
  abbrev pub before_submit : List ToolCall → VerificationGate → W → BatchState W
  before_submit tool_calls gate w =
      let (error, s) = begin gate (host.capture w) in
      (run_calls host error (normalize_calls 0 tool_calls) s).1

  submitted-none :
      (refusal : Option SubmissionError) (calls : List Call) (results : List (Option ToolResult))
      (w : W)
      → Fits calls results
      → (outcome (submit_calls host refusal calls results w).0).submitted ≡ true
      → refusal ≡ none
  submitted-none none calls results w fits h = refl
  submitted-none (some e) calls results w fits h = cc (
      outcome-Unsubmitted (submit_calls host (some e) calls results w).0
        (submit_calls-refused e calls results w fits))

  submitted-any_submit :
      (refusal : Option SubmissionError) (calls : List Call) (results : List (Option ToolResult))
      (w : W)
      → Fits calls results
      → (outcome (submit_calls host refusal calls results w).0).submitted ≡ true
      → any_submit calls ≡ true
  submitted-any_submit refusal calls results w fits h = elim (Bool-cases (any_submit calls)) [
    | inl asked ↦ asked
    | inr without ↦ cc (
        outcome-Unsubmitted (submit_calls host refusal calls results w).0
          (submit_calls-no_submit refusal calls results w fits without))
  ]

  decide-IsCleared :
      (calls : List Call) (results : List (Option ToolResult)) (s : BatchState W)
      → Fits calls results
      → let (refusal, s') = decide host calls s in
        (outcome (submit_calls host refusal calls results s'.world).0).submitted ≡ true
        → (w : W) × (host.capture s.world ≡ (ok s'.gate.current_fingerprint, w)) × IsCleared s'.gate
  decide-IsCleared calls results s fits h =
      let (refusal, s') = decide host calls s in
      let asked = submitted-any_submit refusal calls results s'.world fits h in
      let same : decide host calls s ≡ decide_at s (host.capture s.world) =
        unfold decide in rw asked in
      rw same (
        decide_at-none s (host.capture s.world)
          (rw same at (submitted-none refusal calls results s'.world fits h)))

  -- If a batch submits, then after all its other calls the workspace had a fingerprint at which the
  -- gate that the batch returns stands: its status is not failed, and that fingerprint is the
  -- verified one, or it is the baseline and no verification is asked for.
  pub execute_tool_batch-IsCleared :
      (tool_calls : List ToolCall) (gate : VerificationGate) (w : W)
      → let (batch, gate', _) = execute_tool_batch host tool_calls gate w in
        batch.submitted ≡ true
        → (w' : W) × (host.capture (before_submit tool_calls gate w).world
            ≡ (ok gate'.current_fingerprint, w'))
          × IsCleared gate'
  unfolding execute_tool_batch
  execute_tool_batch-IsCleared tool_calls gate w h =
      let calls = normalize_calls 0 tool_calls in
      let (error, s) = begin gate (host.capture w) in
      let (results, s1) = run_calls host error calls s in
      decide-IsCleared calls results s1 (run_calls-Fits host error calls s) h
