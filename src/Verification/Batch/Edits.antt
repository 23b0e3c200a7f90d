-- ===== src/Verification/Batch/Edits.antt =====
-- A batch that submits an edit was verified, at the fingerprint of the workspace.
use mini_code_agent_langgrap.Prelude.{◌≡◌, true, List, [], ◌∷◌, String, Result, ok, All, arith, ◌⊎◌}
use mini_code_agent_langgrap.Contracts.{ExecutedToolCall}
use mini_code_agent_langgrap.Verification.Gate.{VerificationGate}
use mini_code_agent_langgrap.Verification.Calls.{ToolCall, is_edit}
use mini_code_agent_langgrap.Verification.Batch.{Host, execute_tool_batch}
use mini_code_agent_langgrap.Verification.Batch.Cleared.{
  IsCleared, before_submit, execute_tool_batch-IsCleared,
}
use mini_code_agent_langgrap.Verification.Batch.Tested.{TestedIn, execute_tool_batch-Minted}
use mini_code_agent_langgrap.Verification.Batch.Demands.{AllDemand, execute_tool_batch-AllDemand}

module _ {W : Type 0} (host : Host W) where
  verified_of_demand :
      (Passed : String → Type 0) (gate : VerificationGate) (p : Result String × W) (w' : W)
      (executed : List ExecutedToolCall)
      → p ≡ (ok gate.current_fingerprint, w')
      → Passed gate.verified_fingerprint
      → IsCleared gate
      → AllDemand executed gate
      → All
          (λ (call : ExecutedToolCall).
            is_edit call.name call.result ≡ true
            → (w'' : W) × (p ≡ (ok gate.verified_fingerprint, w''))
              × Passed gate.verified_fingerprint)
          executed
  verified_of_demand Passed gate p w' [] e passed c d = tt
  verified_of_demand Passed gate p w' (call ∷ rest) e passed c d = (
    λ edit. let required = d.0 edit in (w', ground arith, passed),
    verified_of_demand Passed gate p w' rest e passed c d.1,
  )

  -- If a batch submits and one of its calls was an approved, successful call of a tool that may
  -- change files, then the fingerprint of the workspace, captured after all calls but the submit
  -- calls, is the verified one of the gate that the batch returns, and this fingerprint is empty, or the
  -- gate had it as the verified one before the batch, or a `run_tests` call of the batch passed and the
  -- capture right after that call gave it.
  pub execute_tool_batch_verified :
      (tool_calls : List ToolCall) (gate : VerificationGate) (w : W)
      → let (batch, gate', _) = execute_tool_batch host tool_calls gate w in
        batch.submitted ≡ true
        → All
            (λ (call : ExecutedToolCall).
              is_edit call.name call.result ≡ true
              → (w' : W) × (host.capture (before_submit host tool_calls gate w).world
                  ≡ (ok gate'.verified_fingerprint, w'))
                × (((gate'.verified_fingerprint ≡ gate.verified_fingerprint)
                      ⊎ (gate'.verified_fingerprint ≡ ""))
                    ⊎ TestedIn host tool_calls gate w gate'.verified_fingerprint))
            batch.calls
  execute_tool_batch_verified tool_calls gate w h =
      let (w', e, c) = execute_tool_batch-IsCleared host tool_calls gate w h in
      verified_of_demand
        (λ fp. ((fp ≡ gate.verified_fingerprint) ⊎ (fp ≡ "")) ⊎ TestedIn host tool_calls gate w fp)
        (execute_tool_batch host tool_calls gate w).1 _ w' _ e
        (execute_tool_batch-Minted host tool_calls gate w) c
        (execute_tool_batch-AllDemand host tool_calls gate w)
