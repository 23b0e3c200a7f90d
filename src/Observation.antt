-- ===== src/Observation.antt =====
-- What is told of results: `VerificationCheckEvidence.to_dict` and `verification_command_sha256` of
-- src/mini_code_agent/checks.py, and `ToolResult.to_observation` of src/mini_code_agent/contracts.py.
use mini_code_agent_langgrap.Prelude.{
  ℕ, Bool, true, false, not, ◌&&◌, List, [], ◌∷◌, Option, none, some, String, pos, is_empty, strip,
  if◌then◌else◌,
}
use mini_code_agent_langgrap.Prelude.Json.{
  Json, int, str, bool, arr, obj, Items, nil, cons, Fields, end, field,
}
use mini_code_agent_langgrap.Prelude.Library.{Library}
use mini_code_agent_langgrap.Utils.{truncate_text, default_output_limit}
use mini_code_agent_langgrap.Checks.Matrix.{VerificationCheckEvidence}
use mini_code_agent_langgrap.Contracts.{ToolResult}

-- `if test: data[key] = value`, before the fields that follow.
abbrev field_if : Bool → String → Json → Fields → Fields
field_if test key value rest = if test then field key value rest else rest

abbrev count_field : Option ℕ → Fields → Fields
count_field none rest = rest
count_field (some n) rest = field "tests_run" (int (pos n)) rest

unfoldable pub to_dict : Bool → VerificationCheckEvidence → Fields
to_dict include_command_fingerprint e = field "name" (str e.name) (
    field "returncode" (int e.returncode) (
      field "duration_ms" (int (pos e.duration_ms)) (
        field "blocked" (bool e.blocked) (
          field "approved" (bool e.approved) (
            count_field e.tests_run (
              field_if (not (is_empty e.exception_info)) "exception_info" (str e.exception_info) (
                field_if (include_command_fingerprint && not (is_empty e.command_sha256))
                  "command_sha256" (str e.command_sha256) end)))))))

unfoldable pub verification_command_sha256 : Library → String → String
verification_command_sha256 lib command = lib.sha256_hex (strip command)

evidence_items : List VerificationCheckEvidence → Items
unfolding to_dict
evidence_items [] = nil
evidence_items (e ∷ rest) = cons (obj (to_dict false e)) (evidence_items rest)

abbrev is_nonempty : List VerificationCheckEvidence → Bool
is_nonempty [] = false
is_nonempty (_ ∷ _) = true

unfoldable pub to_observation : ToolResult → Fields
unfolding evidence_items
to_observation r = field "returncode" (int r.returncode) (
    field "output" (str (truncate_text r.output default_output_limit)) (
      field_if (not (is_empty r.command)) "command" (str r.command) (
        field_if (not (is_empty r.exception_info)) "exception_info" (str r.exception_info) (
          field_if r.submitted "submitted" (bool true) (
            field_if r.submitted "submission" (str r.submission) (
              field_if (not r.approved) "approved" (bool false) (
                field_if r.blocked "blocked" (bool true) (
                  count_field r.tests_run (
                    field_if (is_nonempty r.verification_checks) "verification_checks"
                      (arr (evidence_items r.verification_checks)) end)))))))))
