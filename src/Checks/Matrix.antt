-- ===== src/Checks/Matrix.antt =====
-- src/mini_code_agent/checks.py, second part: the matrix that runs the checks. The world `W` holds
-- what a check or a capture of the fingerprint can change.
pub mod Soundness
use Prim.Native.Char.{code}
use Prim.Native.String
use Prim.Native.String.{count}
use mini_code_agent_langgrap.Prelude.{
  ℕ, Bool, true, false, ◌&&◌, ◌||◌, not, List, [], ◌∷◌, ◌++◌, Option, none, some, String, ℤ, pos,
  negsuc, is_zero, Result, ok, err, ◌==◌, leb, ltb, eqb, is_empty, concat, join, strip, decimal_int,
  all, contains, length, if◌then◌else◌,
}
use mini_code_agent_langgrap.Prelude.Results.{◌>>=◌, ◌>>◌, raise, raise_if}
use mini_code_agent_langgrap.Utils.{truncate_text, default_output_limit}
use mini_code_agent_langgrap.Checks.Normalize.{VerificationCheck}

pub record VerificationCheckEvidence : Type 0 where
  pub name : String
  pub returncode : ℤ
  pub duration_ms : ℕ
  pub tests_run : Option ℕ
  pub exception_info : String
  pub blocked : Bool
  pub approved : Bool
  pub command_sha256 : String

pub record VerificationCheckExecution : Type 0 where
  pub evidence : VerificationCheckEvidence
  pub output : String

pub record VerificationMatrixResult : Type 0 where
  pub verification_checks : List VerificationCheckEvidence
  pub output : String
  pub returncode : ℤ
  pub exception_info : String
  pub blocked : Bool
  pub approved : Bool
  pub verification_fingerprint : String

unfoldable pub check_status : VerificationCheckEvidence → String
check_status item =
    if item.blocked
    then "BLOCKED"
    else if not item.approved
    then "REJECTED"
    else if is_zero item.returncode
    then "PASS"
    else "FAIL"

unfoldable pub status_lines : List VerificationCheckEvidence → List String
status_lines [] = []
status_lines (item ∷ rest) =
    concat (
      item.name
      ∷ "  "
      ∷ check_status item
      ∷ "  "
      ∷ decimal_int item.returncode
      ∷ "  "
      ∷ decimal_int (pos item.duration_ms)
      ∷ "ms"
      ∷ [])
    ∷ status_lines rest

-- The loop over `zip(evidence, outputs)`.
unfoldable pub failure_lines : List VerificationCheckEvidence → List String → List String
failure_lines (item ∷ evidence) (output ∷ outputs) =
    (if not (is_zero item.returncode) && not (is_empty output)
      then "" ∷ concat ("## " ∷ item.name ∷ []) ∷ truncate_text output 2000 ∷ []
      else [])
    ++ failure_lines evidence outputs
failure_lines _ _ = []

unfoldable pub render_matrix : List VerificationCheckEvidence → List String → String → String
unfolding check_status status_lines failure_lines
render_matrix evidence outputs headline =
    truncate_text
      (join "\n" (
        ("CHECK  STATUS  EXIT  DURATION" ∷ status_lines evidence)
        ++ ((if is_empty headline then [] else "" ∷ headline ∷ [])
            ++ failure_lines evidence outputs)))
      default_output_limit

unfoldable pub matrix_failure :
    List VerificationCheckEvidence
    → List String
    → String
    → String
    → Bool
    → Bool
    → VerificationMatrixResult
matrix_failure evidence outputs exception_info headline blocked approved = record {
  verification_checks = evidence;
  output = render_matrix evidence outputs headline;
  returncode = negsuc 0;
  exception_info = exception_info;
  blocked = blocked;
  approved = approved;
  verification_fingerprint = "";
}

-- The `return` behind the loop.
unfoldable pub matrix_verdict :
    List VerificationCheckEvidence → List String → String → VerificationMatrixResult
matrix_verdict evidence outputs baseline =
    let passed = all (λ (item : VerificationCheckEvidence). is_zero item.returncode) evidence in
    record {
      verification_checks = evidence;
      output = render_matrix evidence outputs "";
      returncode = if passed then pos 0 else pos 1;
      exception_info = if passed then "" else "VerificationCheckFailed";
      blocked = false;
      approved = true;
      verification_fingerprint = if passed then baseline else "";
    }

-- The last two tests of a round: what stops the matrix although the check ran.
unfoldable pub check_stop :
    VerificationCheck
    → VerificationCheckEvidence
    → List VerificationCheckEvidence
    → List String
    → Option VerificationMatrixResult
unfolding matrix_failure
check_stop check item evidence outputs =
    if item.blocked || not item.approved
    then some (
        matrix_failure evidence outputs
          (if is_empty item.exception_info then "VerificationCheckBlocked" else item.exception_info)
          (concat ("Check " ∷ check.name ∷ " was not authorized." ∷ [])) item.blocked item.approved)
    else if not (is_empty item.exception_info) && not (item.exception_info == "NoTestsCollected")
    then some (
        matrix_failure evidence outputs item.exception_info
          (concat ("Check " ∷ check.name ∷ " stopped the verification matrix." ∷ [])) false true)
    else none

module _ {W : Type 0} (capture_fingerprint : W → Result String × W)
    (execute_check : VerificationCheck → W → Result VerificationCheckExecution × W) where
  -- One round from its first capture; `next` is the rest of the loop.
  unfoldable pub settle_check :
      String
      → VerificationCheck
      → VerificationCheckEvidence
      → List VerificationCheckEvidence
      → List String
      → (W → VerificationMatrixResult × W)
      → Result String × W
      → VerificationMatrixResult × W
  unfolding matrix_failure
  settle_check baseline check item evidence outputs next (err e, w) = (
    matrix_failure evidence outputs "WorkspaceFingerprintError"
        (concat ("Workspace fingerprint capture failed after " ∷ check.name ∷ "." ∷ [])) false true,
    w,
  )
  settle_check baseline check item evidence outputs next (ok after, w) =
      if not (after == baseline)
      then (
        matrix_failure evidence outputs "WorkspaceChangedDuringVerification"
            (concat ("Check " ∷ check.name ∷ " changed the fingerprinted workspace." ∷ [])) false
            true,
        w,
      )
      else elim (check_stop check item evidence outputs) [ some stop ↦ (stop, w) | none ↦ next w ]

  unfoldable pub after_check :
      String
      → VerificationCheck
      → List VerificationCheckEvidence
      → List String
      → (VerificationCheckExecution → W → VerificationMatrixResult × W)
      → Result VerificationCheckExecution × W
      → VerificationMatrixResult × W
  unfolding matrix_failure
  after_check baseline check evidence outputs next (err e, w) = (
    matrix_failure evidence outputs "VerificationCheckExecutionError"
        (concat ("Check " ∷ check.name ∷ " could not be executed safely." ∷ [])) false true,
    w,
  )
  after_check baseline check evidence outputs next (ok execution, w) =
      settle_check baseline check execution.evidence (evidence ++ execution.evidence ∷ [])
        (outputs ++ execution.output ∷ []) (next execution) (capture_fingerprint w)

  unfoldable pub before_check :
      String
      → VerificationCheck
      → List VerificationCheckEvidence
      → List String
      → (VerificationCheckExecution → W → VerificationMatrixResult × W)
      → Result String × W
      → VerificationMatrixResult × W
  unfolding matrix_failure
  before_check baseline check evidence outputs next (err e, w) = (
    matrix_failure evidence outputs "WorkspaceFingerprintError"
        (concat ("Workspace fingerprint capture failed before " ∷ check.name ∷ "." ∷ [])) false
        true,
    w,
  )
  before_check baseline check evidence outputs next (ok before, w) =
      if not (before == baseline)
      then (
        matrix_failure evidence outputs "WorkspaceChangedDuringVerification"
            (concat ("Workspace changed before check " ∷ check.name ∷ "." ∷ [])) false true,
        w,
      )
      else after_check baseline check evidence outputs next (execute_check check w)

  -- The `for` loop.
  unfoldable pub run_checks :
      String
      → List VerificationCheck
      → List VerificationCheckEvidence
      → List String
      → W
      → VerificationMatrixResult × W
  unfolding before_check
  run_checks baseline [] evidence outputs w = (matrix_verdict evidence outputs baseline, w)
  run_checks baseline (check ∷ rest) evidence outputs w =
      before_check baseline check evidence outputs
        (λ execution w'.
          run_checks baseline rest (evidence ++ execution.evidence ∷ [])
            (outputs ++ execution.output ∷ []) w')
        (capture_fingerprint w)

  unfoldable pub start_matrix :
      List VerificationCheck → Result String × W → VerificationMatrixResult × W
  unfolding matrix_failure
  start_matrix checks (err e, w) = (
    matrix_failure [] [] "WorkspaceFingerprintError"
        "Workspace fingerprint capture failed before verification." false true,
    w,
  )
  start_matrix checks (ok baseline, w) = run_checks baseline checks [] [] w

  unfoldable pub run_verification_matrix : List VerificationCheck → W → VerificationMatrixResult × W
  unfolding start_matrix
  run_verification_matrix checks w = start_matrix checks (capture_fingerprint w)
