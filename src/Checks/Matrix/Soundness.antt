-- ===== src/Checks/Matrix/Soundness.antt =====
-- The matrix passes exactly on a run in which every check was executed, authorised and successful,
-- with the workspace at one fingerprint throughout.
use mini_code_agent_langgrap.Prelude.{
  ◌≡◌, refl, Bool, true, false, List, [], ◌∷◌, ◌++◌, none, some, String, pos, negsuc, is_zero,
  Result, ok, err, ◌==◌, eq_iff, eq_refl, all, arith, Bool-cases, Option-cases, inl, inr, ◌⊎◌,
  if◌then◌else◌,
}
use mathlib.Core.List.{append-nil, append_assoc}
use mini_code_agent_langgrap.Checks.Normalize.{VerificationCheck}
use mini_code_agent_langgrap.Checks.Matrix.{
  VerificationCheckEvidence, VerificationCheckExecution, VerificationMatrixResult, check_stop,
  matrix_failure, matrix_verdict, settle_check, after_check, before_check, run_checks, start_matrix,
  run_verification_matrix,
}

-- A check that was authorised and did not stop the matrix.
abbrev pub IsAdmissible : VerificationCheckEvidence → Type 0
IsAdmissible e =
    (e.blocked ≡ false)
    × (e.approved ≡ true)
    × ((e.exception_info ≡ "") ⊎ (e.exception_info ≡ "NoTestsCollected"))

check_stop-none :
    (check : VerificationCheck) (e : VerificationCheckEvidence)
    (evidence : List VerificationCheckEvidence) (outputs : List String)
    → check_stop check e evidence outputs ≡ none
    → IsAdmissible e
unfolding check_stop
check_stop-none check e evidence outputs h =
    ground (arith, eq_iff e.exception_info "", eq_iff e.exception_info "NoTestsCollected")

none-check_stop :
    (check : VerificationCheck) (e : VerificationCheckEvidence)
    (evidence : List VerificationCheckEvidence) (outputs : List String)
    → IsAdmissible e
    → check_stop check e evidence outputs ≡ none
unfolding check_stop
none-check_stop check e evidence outputs h =
    ground (arith, eq_iff e.exception_info "", eq_iff e.exception_info "NoTestsCollected")

check_stop-some :
    (check : VerificationCheck) (e : VerificationCheckEvidence)
    (evidence : List VerificationCheckEvidence) (outputs : List String)
    (r : VerificationMatrixResult)
    → check_stop check e evidence outputs ≡ some r
    → r.returncode ≡ negsuc 0
unfolding check_stop matrix_failure
check_stop-some check e evidence outputs r h = ground arith

abbrev pub all_zero : List VerificationCheckEvidence → Bool
all_zero evidence = all (λ (e : VerificationCheckEvidence). is_zero e.returncode) evidence

module _ {W : Type 0} (capture_fingerprint : W → Result String × W)
    (execute_check : VerificationCheck → W → Result VerificationCheckExecution × W) where
  -- A run of the checks from `w` to `w'` in which every capture gives `base`, and every check is
  -- executed and admissible; the last index is the evidence.
  pub data Runs (base : String) (w' : W)
      : W → List VerificationCheck → List VerificationCheckEvidence → Type 0 where
    finished : Runs base w' w' [] []
    checked :
        {w w1 w2 w3 : W} {c : VerificationCheck} {x : VerificationCheckExecution}
        {rest : List VerificationCheck} {evidence : List VerificationCheckEvidence}
        → capture_fingerprint w ≡ (ok base, w1)
        → execute_check c w1 ≡ (ok x, w2)
        → capture_fingerprint w2 ≡ (ok base, w3)
        → IsAdmissible x.evidence
        → Runs base w' w3 rest evidence
        → Runs base w' w (c ∷ rest) (x.evidence ∷ evidence)

  settle_check-zero :
      (base : String) (c : VerificationCheck) (item : VerificationCheckEvidence)
      (evidence : List VerificationCheckEvidence) (outputs : List String)
      (next : W → VerificationMatrixResult × W) (p : Result String × W)
      → let r =
          settle_check capture_fingerprint execute_check base c item evidence outputs next p in
        r.0.returncode ≡ pos 0 → (w : W) × (p ≡ (ok base, w)) × IsAdmissible item × (r ≡ next w)
  unfolding settle_check matrix_failure
  settle_check-zero base c item evidence outputs next (err e, w) h = cc
  settle_check-zero base c item evidence outputs next (ok after, w) h =
      elim (Option-cases (check_stop c item evidence outputs)) [
        | inr (r, stop) ↦ absurd (ground (arith, check_stop-some c item evidence outputs r stop))
        | inl go ↦ (
          w,
          ground (arith, eq_iff after base),
          check_stop-none c item evidence outputs go,
          ground (arith, go),
        )
      ]

  after_check-zero :
      (base : String) (c : VerificationCheck) (evidence : List VerificationCheckEvidence)
      (outputs : List String) (next : VerificationCheckExecution → W → VerificationMatrixResult × W)
      (p : Result VerificationCheckExecution × W)
      → let r = after_check capture_fingerprint execute_check base c evidence outputs next p in
        r.0.returncode ≡ pos 0
        → (x : VerificationCheckExecution) × (w2 w3 : W) × (p ≡ (ok x, w2))
          × (capture_fingerprint w2 ≡ (ok base, w3))
          × IsAdmissible x.evidence
          × (r ≡ next x w3)
  unfolding after_check matrix_failure
  after_check-zero base c evidence outputs next (err e, w) h = cc
  after_check-zero base c evidence outputs next (ok x, w) h =
      let (w3, q, a, e) =
        settle_check-zero base c x.evidence (evidence ++ x.evidence ∷ []) (outputs ++ x.output ∷ [])
          (next x) (capture_fingerprint w) h in
      (x, w, w3, refl, q, a, e)

  before_check-zero :
      (base : String) (c : VerificationCheck) (evidence : List VerificationCheckEvidence)
      (outputs : List String) (next : VerificationCheckExecution → W → VerificationMatrixResult × W)
      (p : Result String × W)
      → let r = before_check capture_fingerprint execute_check base c evidence outputs next p in
        r.0.returncode ≡ pos 0
        → (x : VerificationCheckExecution) × (w1 w2 w3 : W) × (p ≡ (ok base, w1))
          × (execute_check c w1 ≡ (ok x, w2))
          × (capture_fingerprint w2 ≡ (ok base, w3))
          × IsAdmissible x.evidence
          × (r ≡ next x w3)
  unfolding before_check matrix_failure
  before_check-zero base c evidence outputs next (err e, w) h = cc
  before_check-zero base c evidence outputs next (ok before, w) h =
      elim (Bool-cases (before == base)) [
        | inl same ↦
            let (x, w2, w3, q1, q2, a, e) =
              after_check-zero base c evidence outputs next (execute_check c w) (rw same at h) in
            (x, w, w2, w3, ground (arith, eq_iff before base), q1, q2, a, rw same e)
        | inr changed ↦ absurd (ground arith)
      ]

  -- The rounds of the matrix from the evidence gathered so far.
  run_checks-zero :
      (base : String) (checks : List VerificationCheck) (evidence : List VerificationCheckEvidence)
      (outputs : List String) (w : W)
      → let r = run_checks capture_fingerprint execute_check base checks evidence outputs w in
        r.0.returncode ≡ pos 0
        → (more : List VerificationCheckEvidence) × Runs base r.1 w checks more
          × (r.0.verification_checks ≡ evidence ++ more)
          × (all (λ (e : VerificationCheckEvidence). is_zero e.returncode) (evidence ++ more)
              ≡ true)
          × (r.0.verification_fingerprint ≡ base)
  unfolding run_checks matrix_verdict
  run_checks-zero base [] evidence outputs w h =
      ([], finished, rw append-nil, rw append-nil (ground arith), ground arith)
  run_checks-zero base (c ∷ rest) evidence outputs w h =
      let (x, w1, w2, w3, p1, p2, p3, a, e) =
        before_check-zero base c evidence outputs
          (λ y v.
            run_checks capture_fingerprint execute_check base rest (evidence ++ y.evidence ∷ [])
              (outputs ++ y.output ∷ []) v)
          (capture_fingerprint w) h in
      let (more, run, kept, passed, minted) =
        run_checks-zero base rest (evidence ++ x.evidence ∷ []) (outputs ++ x.output ∷ []) w3
          (rw e at h) in
      (
        x.evidence ∷ more,
        rw e (checked p1 p2 p3 a run),
        rw e (rw kept (append_assoc evidence (x.evidence ∷ []) more)),
        rw (append_assoc evidence (x.evidence ∷ []) more) at passed,
        rw e minted,
      )

  -- What the matrix answers when no check stopped it.
  abbrev pub Verdict : String → List VerificationCheckEvidence → VerificationMatrixResult → Type 0
  Verdict base evidence r =
      (r.verification_checks ≡ evidence)
      × (r.returncode ≡ (if all_zero evidence then pos 0 else pos 1))
      × (r.verification_fingerprint ≡ (if all_zero evidence then base else ""))
      × (r.blocked ≡ false)
      × (r.approved ≡ true)

  run_checks-checked :
      (base : String) {w w1 w2 w3 : W} (c : VerificationCheck) (x : VerificationCheckExecution)
      (rest : List VerificationCheck) (evidence : List VerificationCheckEvidence)
      (outputs : List String)
      → capture_fingerprint w ≡ (ok base, w1)
      → execute_check c w1 ≡ (ok x, w2)
      → capture_fingerprint w2 ≡ (ok base, w3)
      → IsAdmissible x.evidence
      → run_checks capture_fingerprint execute_check base (c ∷ rest) evidence outputs w
        ≡ run_checks capture_fingerprint execute_check base rest
            (evidence ++ x.evidence ∷ [])
            (outputs ++ x.output ∷ [])
            w3
  unfolding run_checks before_check after_check settle_check
  run_checks-checked base c x rest evidence outputs p1 p2 p3 a =
      rw (p1, before_check)
        (rw eq_refl (
          rw (p2, after_check)
            (rw (p3, settle_check)
              (rw (
                eq_refl,
                none-check_stop c x.evidence (evidence ++ x.evidence ∷ [])
                    (outputs ++ x.output ∷ []) a,
              )))))

  run_checks-Runs :
      {base : String} {w' : W} {w : W} {checks : List VerificationCheck}
      {more : List VerificationCheckEvidence} (evidence : List VerificationCheckEvidence)
      (outputs : List String)
      → Runs base w' w checks more
      → let r = run_checks capture_fingerprint execute_check base checks evidence outputs w in
        Verdict base (evidence ++ more) r.0 × (r.1 ≡ w')
  unfolding run_checks matrix_verdict
  run_checks-Runs evidence outputs finished = rw append-nil ((refl, refl, refl, refl, refl), refl)
  run_checks-Runs {base = base} evidence outputs
        (checked {c = c} {x = x} {rest = rest} {evidence = more} p1 p2 p3 a run) =
      rw (run_checks-checked base c x rest evidence outputs p1 p2 p3 a) (
        rw append_assoc at
          (run_checks-Runs (evidence ++ x.evidence ∷ []) (outputs ++ x.output ∷ []) run))

  start_matrix-zero :
      (checks : List VerificationCheck) (p : Result String × W)
      → let r = start_matrix capture_fingerprint execute_check checks p in
        r.0.returncode ≡ pos 0
        → (base : String) × (start : W) × (p ≡ (ok base, start))
          × Runs base r.1 start checks r.0.verification_checks
          × (all_zero r.0.verification_checks ≡ true)
          × (r.0.verification_fingerprint ≡ base)
  unfolding start_matrix matrix_failure
  start_matrix-zero checks (err e, w) h = cc
  start_matrix-zero checks (ok base, w) h =
      let (more, run, kept, passed, minted) = run_checks-zero base checks [] [] w h in
      (base, w, refl, rw kept run, rw kept passed, minted)

  -- A result with return code 0 comes from a run of all the checks in which every capture of the
  -- fingerprint gave one value and every check was executed, authorised and successful; the
  -- result holds the evidence of that run in order, and its fingerprint is that value.
  pub run_verification_matrix_sound :
      (checks : List VerificationCheck) (w : W)
      → let r = run_verification_matrix capture_fingerprint execute_check checks w in
        r.0.returncode ≡ pos 0
        → (base : String) × (start : W) × (capture_fingerprint w ≡ (ok base, start))
          × Runs base r.1 start checks r.0.verification_checks
          × (all_zero r.0.verification_checks ≡ true)
          × (r.0.verification_fingerprint ≡ base)
  unfolding run_verification_matrix
  run_verification_matrix_sound checks w h = start_matrix-zero checks (capture_fingerprint w) h

  -- A run in which every capture gives one value and every check is executed, not blocked and
  -- authorised, and reports no exception but that no tests were collected ends
  -- with the evidence of all checks, with return code 0 exactly when all of them returned 0 and 1
  -- otherwise, and only then with that value as its fingerprint; it is neither blocked nor refused.
  pub run_verification_matrix_complete :
      (base : String) (checks : List VerificationCheck) (evidence : List VerificationCheckEvidence)
      (w start w' : W)
      → capture_fingerprint w ≡ (ok base, start)
      → Runs base w' start checks evidence
      → let r = run_verification_matrix capture_fingerprint execute_check checks w in
        Verdict base evidence r.0 × (r.1 ≡ w')
  unfolding run_verification_matrix start_matrix
  run_verification_matrix_complete base checks evidence w start w' p run =
      rw (p, start_matrix) (run_checks-Runs [] [] run)
