-- ===== src/Checks/Normalize/Laws.antt =====
-- Configured checks: what is accepted is in normal form.
use mini_code_agent_langgrap.Prelude.{
  ◌≡◌, ◌≢◌, refl, ap, true, false, List, [], ◌∷◌, ◌++◌, Option, String, ok, eq_iff, eq_refl, ◌↔◌,
  ltb, is_empty, strip, contains, length, All, arith, ◌≤◌,
}
use mini_code_agent_langgrap.Prelude.Results.{raise_if, >>=-eq-ok, raise_if-eq-ok}
use mini_code_agent_langgrap.Prelude.Texts.Strip.{strip-strip}
use mini_code_agent_langgrap.Checks.Normalize.{
  VerificationCheck, is_check_name, verification_check, max_verification_checks, reject_duplicates,
  default_checks, normalize_verification_checks,
}

verification_check-inv :
    (name command : String) {c : VerificationCheck}
    → verification_check name command ≡ ok c
    → (is_check_name name ≡ true)
      × (is_empty (strip command) ≡ false)
      × (c ≡ record { name = name; command = strip command })
unfolding verification_check
verification_check-inv name command h = ground arith

-- An accepted check has the name that it was built from, which is a valid check name, and the command
-- without the whitespace at its ends, which is not empty; its command has no whitespace at its ends,
-- and building the check again from its name and command gives the same check.
pub verification_check-verification_check :
    (name command : String) {c : VerificationCheck}
    → verification_check name command ≡ ok c
    → (c.name ≡ name)
      × (is_check_name c.name ≡ true)
      × (c.command ≡ strip command)
      × (is_empty c.command ≡ false)
      × (strip c.command ≡ c.command)
      × (verification_check c.name c.command ≡ ok c)
unfolding verification_check
verification_check-verification_check name command h =
    let (named, solid, e) = verification_check-inv name command h in
    rw e (refl, named, refl, solid, strip-strip command, rw (strip-strip, named, solid))

-- No two checks have one name.
abbrev pub IsUnique : List VerificationCheck → Type 0
IsUnique [] = Unit
IsUnique (c ∷ rest) = All (λ (d : VerificationCheck). d.name ≢ c.name) rest × IsUnique rest

abbrev Unseen : List String → List VerificationCheck → Type 0
Unseen seen = All (λ (d : VerificationCheck). contains d.name seen ≡ false)

reject_duplicates-ne :
    (a : String) (seen : List String) (checks : List VerificationCheck)
    → contains a seen ≡ true
    → reject_duplicates seen checks ≡ ok tt
    → All (λ (d : VerificationCheck). d.name ≢ a) checks
unfolding reject_duplicates
reject_duplicates-ne a seen [] m h = tt
reject_duplicates-ne a seen (c ∷ rest) m h = (
  λ e. ground (arith, ap (λ x. contains x seen) e),
  reject_duplicates-ne a (c.name ∷ seen) rest (ground arith) (ground arith),
)

reject_duplicates-IsUnique :
    (seen : List String) (checks : List VerificationCheck)
    → reject_duplicates seen checks ≡ ok tt
    → IsUnique checks
unfolding reject_duplicates
reject_duplicates-IsUnique seen [] h = tt
reject_duplicates-IsUnique seen (c ∷ rest) h = (
  reject_duplicates-ne c.name (c.name ∷ seen) rest (ground (arith, eq_refl c.name)) (ground arith),
  reject_duplicates-IsUnique (c.name ∷ seen) rest (ground arith),
)

Unseen-cons :
    (a : String) (seen : List String) (checks : List VerificationCheck)
    → All (λ (d : VerificationCheck). d.name ≢ a) checks
    → Unseen seen checks
    → Unseen (a ∷ seen) checks
Unseen-cons a seen [] h u = tt
Unseen-cons a seen (c ∷ rest) h u =
    (ground (arith, eq_iff c.name a), Unseen-cons a seen rest h.1 u.1)

IsUnique-reject_duplicates :
    (seen : List String) (checks : List VerificationCheck)
    → Unseen seen checks
    → IsUnique checks
    → reject_duplicates seen checks ≡ ok tt
unfolding reject_duplicates
IsUnique-reject_duplicates seen [] u h = refl
IsUnique-reject_duplicates seen (c ∷ rest) u h =
    rw u.0
      (IsUnique-reject_duplicates (c.name ∷ seen) rest (Unseen-cons c.name seen rest h.0 u.1) h.1)

Unseen-nil : (checks : List VerificationCheck) → Unseen [] checks
Unseen-nil [] = tt
Unseen-nil (c ∷ rest) = (refl, Unseen-nil rest)

-- Configured checks are accepted exactly when the default test command, if there is one, makes a
-- valid check, and this check before the explicit ones gives at most 16 checks, no two of one
-- name; the accepted list is those checks in that order.
pub normalize_verification_checks_iff :
    (default_test_command : Option String) (explicit_checks checks : List VerificationCheck)
    → (normalize_verification_checks default_test_command explicit_checks ≡ ok checks) ↔ (
        (first : List VerificationCheck) × (default_checks default_test_command ≡ ok first)
        × (checks ≡ first ++ explicit_checks)
        × (length checks ≤ 16)
        × IsUnique checks)
unfolding normalize_verification_checks
normalize_verification_checks_iff command explicit checks = (
  λ h.
      let (first, e1, h1) = >>=-eq-ok (default_checks command) _ h in
      let (_, e2, h2) =
        >>=-eq-ok (raise_if (ltb max_verification_checks (length (first ++ explicit))) _ _) _ h1 in
      let (_, e3, h3) = >>=-eq-ok (reject_duplicates [] (first ++ explicit)) _ h2 in
      let same : checks ≡ first ++ explicit = cc in
      (
        first,
        e1,
        same,
        rw same (
            ground (
              arith,
              raise_if-eq-ok (ltb max_verification_checks (length (first ++ explicit))) _ _ e2,
            )),
        rw same (reject_duplicates-IsUnique [] (first ++ explicit) e3),
      ),
  λ (first, e1, same, fits, unique). rw e1 (
      rw (← same)
        (rw (IsUnique-reject_duplicates [] checks (Unseen-nil checks) unique) (ground arith))),
)
