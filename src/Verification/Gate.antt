-- ===== src/Verification/Gate.antt =====
-- `VerificationGate` of src/mini_code_agent/verification.py. Each method returns the gate as it
-- leaves it.
pub mod Laws
use mini_code_agent_langgrap.Prelude.{
  Bool, true, false, not, ◌&&◌, ◌||◌, Option, none, some, String, ◌==◌, is_empty, if◌then◌else◌,
}

pub data GateStatus : Type 0 where
  not_required required passed failed : GateStatus

abbrev pub is_failed : GateStatus → Bool
is_failed failed = true
is_failed _ = false

abbrev pub is_passed : GateStatus → Bool
is_passed passed = true
is_passed _ = false

pub record VerificationGate : Type 0 where
  pub baseline_fingerprint : String
  pub current_fingerprint : String
  pub verified_fingerprint : String
  pub status : GateStatus
  pub has_changes : Bool
  pub require_verification : Bool

unfoldable pub create : String → Bool → VerificationGate
create fingerprint require_verification = record {
  baseline_fingerprint = fingerprint;
  current_fingerprint = fingerprint;
  verified_fingerprint = "";
  status = if require_verification then required else not_required;
  has_changes = false;
  require_verification = require_verification;
}

-- The gate's part of the agent's state; a key that is missing there is `none`.
pub record GateState : Type 0 where
  pub has_changes : Option Bool
  pub verification_status : Option GateStatus
  pub baseline_fingerprint : String
  pub current_fingerprint : String
  pub verified_fingerprint : Option String
  pub require_verification : Option Bool

abbrev pub get_or {ℓ} : {A : Type ℓ} → Option A → A → A
get_or none d = d
get_or (some a) d = a

unfoldable pub from_state : GateState → VerificationGate
from_state state = record {
  baseline_fingerprint = state.baseline_fingerprint;
  current_fingerprint = state.current_fingerprint;
  verified_fingerprint = get_or state.verified_fingerprint "";
  status = get_or state.verification_status not_required;
  has_changes = get_or state.has_changes false;
  require_verification = get_or state.require_verification false;
}

unfoldable pub to_state : VerificationGate → GateState
to_state gate = record {
  has_changes = some gate.has_changes;
  verification_status = some gate.status;
  baseline_fingerprint = gate.baseline_fingerprint;
  current_fingerprint = gate.current_fingerprint;
  verified_fingerprint = some gate.verified_fingerprint;
  require_verification = some gate.require_verification;
}

unfoldable pub sync : VerificationGate → String → VerificationGate
sync gate fingerprint =
    let has_changes = not (fingerprint == gate.baseline_fingerprint) in
    record gate {
      current_fingerprint = fingerprint;
      has_changes = has_changes;
      status =
          if is_failed gate.status
          then gate.status
          else if not (is_empty gate.verified_fingerprint)
              && fingerprint == gate.verified_fingerprint
          then passed
          else if has_changes || gate.require_verification
          then required
          else not_required;
    }

unfoldable pub record_test : VerificationGate → Bool → String → VerificationGate
record_test gate success fingerprint = record gate {
  current_fingerprint = fingerprint;
  has_changes = not (fingerprint == gate.baseline_fingerprint);
  verified_fingerprint = if success then fingerprint else "";
  status = if success then passed else failed;
}

-- The exception's name and the text that a blocked submission shows.
pub record SubmissionError : Type 0 where
  pub exception_info : String
  pub output : String

abbrev pub verification_failed : SubmissionError
verification_failed = record {
  exception_info = "VerificationFailed";
  output = "Submission blocked: the latest authoritative run_tests call failed.";
}

abbrev pub verification_required : SubmissionError
verification_required = record {
  exception_info = "VerificationRequired";
  output = "Submission blocked: the current workspace must match a passing run_tests snapshot.";
}

-- The error, if there is one, and the gate as `sync` leaves it.
unfoldable pub submission_error :
    VerificationGate → String → Option SubmissionError × VerificationGate
submission_error gate fingerprint =
    let synced = sync gate fingerprint in
    (
      if is_failed synced.status
          then some verification_failed
          else if (synced.has_changes || synced.require_verification)
              && not (synced.verified_fingerprint == fingerprint)
          then some verification_required
          else none,
      synced,
    )

unfoldable pub accept_submission : VerificationGate → VerificationGate
accept_submission gate =
    let was_verified =
      is_passed gate.status
      && (not (is_empty gate.verified_fingerprint)
          && gate.verified_fingerprint == gate.current_fingerprint) in
    record {
      baseline_fingerprint = gate.current_fingerprint;
      current_fingerprint = gate.current_fingerprint;
      verified_fingerprint = if was_verified then gate.current_fingerprint else "";
      status = if was_verified then passed else not_required;
      has_changes = false;
      require_verification = false;
    }
