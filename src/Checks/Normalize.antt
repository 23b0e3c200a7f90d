-- ===== src/Checks/Normalize.antt =====
-- src/mini_code_agent/checks.py, first part: check names and commands, and the normal form of a
-- configured list of checks.
pub mod Laws
use Prim.Native.Char.{code}
use Prim.Native.String
use Prim.Native.String.{count}
use mini_code_agent_langgrap.Prelude.{
  ℕ, Bool, true, false, ◌&&◌, ◌||◌, not, List, [], ◌∷◌, ◌++◌, Option, none, some, String, ℤ, pos,
  negsuc, is_zero, Result, ok, err, ◌==◌, leb, ltb, eqb, is_empty, concat, join, strip, decimal_int,
  all, contains, length, if◌then◌else◌,
}
use mini_code_agent_langgrap.Prelude.Results.{◌>>=◌, ◌>>◌, raise, raise_if}
use mini_code_agent_langgrap.Utils.{truncate_text, default_output_limit}

abbrev pub max_verification_checks : ℕ
max_verification_checks = 16

pub record VerificationCheck : Type 0 where
  pub name : String
  pub command : String

unfoldable pub is_lower : ℕ → Bool
is_lower c = leb b'a' c && leb c b'z'

unfoldable pub is_name_char : ℕ → Bool
unfolding is_lower
is_name_char c = is_lower c || ((leb b'0' c && leb c b'9') || (eqb c b'_' || eqb c b'-'))

unfoldable pub all_chars : (ℕ → Bool) → String → Bool
all_chars p String.[] = true
all_chars p (String.◌∷◌ c s) = p (code c) && all_chars p s

-- `_CHECK_NAME.fullmatch(name)`, the pattern [a-z][a-z0-9_-]{0,31}\Z
unfoldable pub is_check_name : String → Bool
unfolding is_lower is_name_char all_chars
is_check_name String.[] = false
is_check_name (String.◌∷◌ c s) = is_lower (code c) && (all_chars is_name_char s && leb (count s) 31)

-- `VerificationCheck(name, command)`, with `__post_init__`
unfoldable pub verification_check : String → String → Result VerificationCheck
verification_check name command = do
  raise_if (not (is_check_name name)) "ValueError" "check name must match [a-z][a-z0-9_-]{0,31}"
  raise_if (is_empty (strip command)) "ValueError" "check command must not be blank"
  ok (record { name = name; command = strip command })

-- The loop over `seen`.
unfoldable pub reject_duplicates : List String → List VerificationCheck → Result (Unit {0})
reject_duplicates seen [] = ok tt
reject_duplicates seen (c ∷ rest) =
    let later = reject_duplicates (c.name ∷ seen) rest in
    if contains c.name seen
    then raise "ValueError" (concat ("duplicate verification check name: " ∷ c.name ∷ []))
    else later

unfoldable pub default_checks : Option String → Result (List VerificationCheck)
default_checks none = ok []
default_checks (some command) = do c ← verification_check "tests" command; ok (c ∷ [])

unfoldable pub normalize_verification_checks :
    Option String → List VerificationCheck → Result (List VerificationCheck)
normalize_verification_checks default_test_command explicit_checks = do
  first ← default_checks default_test_command
  let checks = first ++ explicit_checks
  raise_if (ltb max_verification_checks (length checks)) "ValueError"
      "configure at most 16 verification checks"
  reject_duplicates [] checks
  ok checks
