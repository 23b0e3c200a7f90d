-- ===== src/Verification/Gate/Laws.antt =====
-- The invariant of the gate, and what lets a submission through.
use mini_code_agent_langgrap.Prelude.{
  ◌≡◌, ◌≢◌, ◌↔◌, ◌⊎◌, refl, Bool, true, false, not, none, String, ◌==◌, eq_iff, eq_refl, arith,
}
use mini_code_agent_langgrap.Verification.Gate.{
  not_required, passed, failed, VerificationGate, create, sync, record_test, submission_error,
  accept_submission,
}

-- `has_changes` compares the current fingerprint with the baseline; a passed gate holds the
-- current fingerprint as the verified one, and a gate that asks for nothing has nothing to verify.
pub record IsSound (gate : VerificationGate) : Type 0 where
  pub changes : gate.has_changes ≡ not (gate.current_fingerprint == gate.baseline_fingerprint)
  pub bound :
      gate.status ≡ passed
      → (gate.verified_fingerprint ≡ gate.current_fingerprint) × (gate.verified_fingerprint ≢ "")
  pub idle :
      gate.status ≡ not_required → (gate.has_changes ≡ false) × (gate.require_verification ≡ false)
  pub cleared : gate.status ≡ failed → gate.verified_fingerprint ≡ ""

-- A new gate is sound.
pub create-IsSound : (fp : String) (req : Bool) → IsSound (create fp req)
unfolding create
create-IsSound fp true = record {
  changes = rw eq_refl;
  bound = λ h. cc;
  idle = λ h. cc;
  cleared = λ h. cc;
}
create-IsSound fp false = record {
  changes = rw eq_refl;
  bound = λ h. cc;
  idle = λ h. (refl, refl);
  cleared = λ h. cc;
}

-- Synchronising makes a gate sound if a failed one holds no verified fingerprint.
pub sync-IsSound :
    (g : VerificationGate) (fp : String)
    → (g.status ≡ failed → g.verified_fingerprint ≡ "")
    → IsSound (sync g fp)
unfolding sync
sync-IsSound g fp cleared = record {
  changes = refl;
  bound = λ h. ground (arith, eq_iff fp g.verified_fingerprint, eq_iff g.verified_fingerprint "");
  idle = λ h. ground arith;
  cleared = λ h. cleared (ground arith);
}

pub record_test-IsSound :
    (g : VerificationGate) (success : Bool) (fp : String)
    → fp ≢ ""
    → IsSound (record_test g success fp)
unfolding record_test
record_test-IsSound g true fp h = record {
  changes = refl;
  bound = λ e. (refl, h);
  idle = λ e. cc;
  cleared = λ e. cc;
}
record_test-IsSound g false fp h = record {
  changes = refl;
  bound = λ e. cc;
  idle = λ e. cc;
  cleared = λ e. refl;
}

pub accept_submission-IsSound : (g : VerificationGate) → IsSound (accept_submission g)
unfolding accept_submission
accept_submission-IsSound g = record {
  changes = rw eq_refl;
  bound = λ h. ground (
    arith,
    eq_iff g.verified_fingerprint g.current_fingerprint,
    eq_iff g.verified_fingerprint "",
  );
  idle = λ h. (refl, refl);
  cleared = λ h. ground arith;
}

-- A submission passes exactly when the latest test did not fail, and either the workspace is at
-- its baseline and no verification is asked for, or its fingerprint is the verified one.
pub submission_error-none_iff :
    (g : VerificationGate) (fp : String)
    → ((submission_error g fp).0 ≡ none) ↔ (
        (g.status ≢ failed)
        × (((fp ≡ g.baseline_fingerprint) × (g.require_verification ≡ false))
            ⊎ (g.verified_fingerprint ≡ fp)))
unfolding submission_error sync
submission_error-none_iff g fp = (
  λ h. ground (arith, eq_iff fp g.baseline_fingerprint, eq_iff g.verified_fingerprint fp),
  λ h. ground (arith, eq_iff fp g.baseline_fingerprint, eq_iff g.verified_fingerprint fp),
)
