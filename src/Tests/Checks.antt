-- ===== src/Tests/Checks.antt =====
-- The checks of a run: one passing run of the matrix, and lists that are accepted or refused.
use mini_code_agent_langgrap.Prelude.{
  ◌≡◌, refl, true, false, List, [], ◌∷◌, none, some, String, pos, Result, ok, ◌↔◌, inl, ◌≤◌, ◌++◌,
  length, strip, is_empty,
}
use mini_code_agent_langgrap.Checks.Normalize.{
  VerificationCheck, verification_check, default_checks, normalize_verification_checks,
  is_check_name, is_lower, is_name_char, all_chars,
}
use mini_code_agent_langgrap.Checks.Normalize.Laws.{
  IsUnique, verification_check-verification_check, normalize_verification_checks_iff,
}
use mini_code_agent_langgrap.Checks.Matrix.{
  VerificationCheckEvidence, VerificationCheckExecution, run_verification_matrix, start_matrix,
  run_checks, before_check, after_check, settle_check, check_stop, matrix_verdict,
}
use mini_code_agent_langgrap.Checks.Matrix.Soundness.{
  Runs, Verdict, all_zero, run_verification_matrix_sound, run_verification_matrix_complete,
}

abbrev tests : VerificationCheck
tests = record { name = "tests"; command = "pytest -q" }

-- A command with whitespace at its ends is accepted and stripped.
verification_check-tests : verification_check "tests" " pytest -q\n" ≡ ok tests
unfolding verification_check is_check_name is_lower is_name_char all_chars strip
verification_check-tests = refl

verification_check-verification_check_example :
    (tests.name ≡ "tests")
    × (is_check_name tests.name ≡ true)
    × (tests.command ≡ strip " pytest -q\n")
    × (is_empty tests.command ≡ false)
    × (strip tests.command ≡ tests.command)
    × (verification_check tests.name tests.command ≡ ok tests)
verification_check-verification_check_example =
    verification_check-verification_check "tests" " pytest -q\n" verification_check-tests

abbrev lint : VerificationCheck
lint = record { name = "lint"; command = "ruff check" }

normalize_verification_checks_iff_example :
    (normalize_verification_checks none (tests ∷ lint ∷ []) ≡ ok (tests ∷ lint ∷ [])) ↔ (
      (first : List VerificationCheck) × (default_checks none ≡ ok first)
      × (tests ∷ lint ∷ [] ≡ first ++ tests ∷ lint ∷ [])
      × (length (tests ∷ lint ∷ []) ≤ 16)
      × IsUnique (tests ∷ lint ∷ []))
normalize_verification_checks_iff_example =
    normalize_verification_checks_iff none (tests ∷ lint ∷ []) (tests ∷ lint ∷ [])

abbrev evidence_of : VerificationCheck → VerificationCheckEvidence
evidence_of check = record {
  name = check.name;
  returncode = pos 0;
  duration_ms = 1;
  tests_run = some 3;
  exception_info = "";
  blocked = false;
  approved = true;
  command_sha256 = "";
}

abbrev capture : Unit {0} → Result String × Unit {0}
capture w = (ok "base", w)

abbrev execute : VerificationCheck → Unit {0} → Result VerificationCheckExecution × Unit {0}
execute check w = (ok (record { evidence = evidence_of check; output = "" }), w)

abbrev both : List VerificationCheck
both = tests ∷ lint ∷ []

run_verification_matrix-both :
    (run_verification_matrix capture execute both tt).0.returncode ≡ pos 0
unfolding run_verification_matrix start_matrix run_checks before_check after_check settle_check
    check_stop matrix_verdict
run_verification_matrix-both = refl

run_verification_matrix_sound_example :
    let r = run_verification_matrix capture execute both tt in
    (base : String) × (start : Unit {0}) × (capture tt ≡ (ok base, start))
    × Runs capture execute base r.1 start both r.0.verification_checks
    × (all_zero r.0.verification_checks ≡ true)
    × (r.0.verification_fingerprint ≡ base)
run_verification_matrix_sound_example =
    run_verification_matrix_sound capture execute both tt run_verification_matrix-both

both-Runs : Runs capture execute "base" tt tt both (evidence_of tests ∷ evidence_of lint ∷ [])
both-Runs =
    Runs.checked refl refl refl (refl, refl, inl refl)
      (Runs.checked refl refl refl (refl, refl, inl refl) Runs.finished)

run_verification_matrix_complete_example :
    let r = run_verification_matrix capture execute both tt in
    Verdict capture execute "base" (evidence_of tests ∷ evidence_of lint ∷ []) r.0 × (r.1 ≡ tt)
run_verification_matrix_complete_example =
    run_verification_matrix_complete capture execute "base" both
      (evidence_of tests ∷ evidence_of lint ∷ []) tt tt tt refl both-Runs
