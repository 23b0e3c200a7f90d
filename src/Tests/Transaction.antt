-- ===== src/Tests/Transaction.antt =====
-- A transaction that is prepared, committed and aborted, on worktrees that are the content of one file.
use mini_code_agent_langgrap.Prelude.{
  ◌≡◌, refl, Bool, true, false, ◌⊎◌, List, [], ◌∷◌, none, some, String, pos, Result, ok, err, ◌==◌,
  concat, if◌then◌else◌,
}
use mini_code_agent_langgrap.Prelude.Library.{Library}
use mini_code_agent_langgrap.Prelude.Json.{Json, int, str, arr, obj, cons, nil, Fields, end, field}
use mini_code_agent_langgrap.Manifest.{Manifest, open_, prepared, committed, aborted}
use mini_code_agent_langgrap.Transaction.Store.{
  Baseline, Directory, World, Env, is_transaction_id, directory, replace_directory, read_file,
  read_clock, write_file, load, save, workspace_of, remove_workspace,
}
use mini_code_agent_langgrap.Transaction.Prepare.{
  is_submitted, is_verified_at, pop_all, put_all, expected_source_files, track_new_files,
  write_patch, receipt_key, issue_receipt, seal_patch, prepare_verified, prepare,
}
use mini_code_agent_langgrap.Transaction.Commit.{
  stored_receipt, matching_receipt, apply_patch, check_unchanged, checked_patch, check_committed,
  admit_commit, perform_commit, commit, mark_aborted, abort, is_committed,
}
use mini_code_agent_langgrap.Prelude.JsonEquality.{json_eq}
use mini_code_agent_langgrap.Transaction.Prepare.Bound.{IsBound, prepare-IsBound}
use mini_code_agent_langgrap.Transaction.Prepare.Untouched.{prepare-Apart}
use mini_code_agent_langgrap.Transaction.Admission.{Admissible, commit-Admissible}
use mini_code_agent_langgrap.Transaction.Admission.Committed.{commit-content}
use mini_code_agent_langgrap.Transaction.Admission.{Receipted}
use mini_code_agent_langgrap.Transaction.Admission.Validated.{validated_patch-Receipted}
use mini_code_agent_langgrap.Transaction.Commit.{
  is_prepared, validated_receipt_for_manifest, validated_patch,
}
use mini_code_agent_langgrap.Prelude.{◌||◌}
use mini_code_agent_langgrap.Transaction.Admission.Aborted.{abort-aborted}
use mini_code_agent_langgrap.Workspace.{
  pop, put, fingerprint, sorted_set, missing_paths, modified_paths, diff,
}
use mini_code_agent_langgrap.Receipt.{
  digest_json, workspace_identity, is_passing_event, last_passing, events_of, to_int,
  tests_run_field, legacy_check, checks_of_event, verification_checks, receipt_payload, seal,
  load_existing_key, load_or_create_key, is_identified, load_receipt, has_sections, receipt_tests,
  mismatches, validate_receipt,
}

-- A text that tells the test's objects apart: that of the first field.
abbrev first_text : Json → String
first_text (obj (field key (str text) rest)) = concat (key ∷ "=" ∷ text ∷ [])
first_text v = "value"

abbrev pub library : Library
library = record {
  sha256_hex = λ t. concat ("sha256:" ∷ t ∷ []);
  hmac_hex = λ key t. concat (key ∷ ":" ∷ t ∷ []);
  canonical_json = first_text;
  repr = λ t. t;
  json_loads = λ t. some (str t);
  str_of = λ v. "";
  int_of = λ t. ok (pos 0);
  float_equals = λ t n. false;
  resolve = λ t. t;
}

abbrev pub env : Env String
env = record {
  library = library;
  fresh_key = "0123456789abcdef0123456789abcdef";
  time_ns = λ n. n;
  write_error = λ n. none;
  head = λ tree. ok "c0";
  capture = λ tree. ok (("a.py", tree) ∷ []);
  capture_content = λ tree. ok (("a.py", tree) ∷ []);
  untracked = λ tree. ok [];
  add_intent = λ paths tree. (ok tt, tree);
  diff_names = λ tree. ok ("a.py" ∷ []);
  diff = λ tree. ok tree;
  apply_check = λ patch tree. none;
  apply = λ patch tree. (ok tt, patch);
  worktree_remove = λ tree. (ok tt, tree);
}

abbrev id : String
id = "0123456789abcdef01234567"

abbrev pub manifest : Manifest
manifest = record {
  version = 1;
  id = id;
  status = open_;
  source = "/src";
  baseline_commit = "c0";
  baseline_fingerprint = "sha256:a.py=old";
  baseline_content_fingerprint = "sha256:a.py=old";
  prepared_fingerprint = "";
  prepared_content_fingerprint = "";
  prepared_source_fingerprint = "";
  prepared_patch_sha256 = "";
  receipt_id = "";
  task = "task";
  memory_mode = some "off";
  workspace_identity_sha256 = some "identity";
  created_at_ns = 0;
  updated_at_ns = 0;
  committed_at_ns = none;
  aborted_at_ns = none;
  trajectory = "";
  read_set = [];
  write_set = "a.py" ∷ [];
  broad_read = false;
  broad_write = false;
  access_log = [];
  failure = "";
}

-- The workspace holds the edited file.
abbrev world : World String
world = record {
  source = "old";
  directories = λ j.
      if j == id
      then some (record {
        manifest = some manifest;
        baseline = some (record {
          source_files = ("a.py", "old") ∷ [];
          workspace_files = ("a.py", "old") ∷ [];
        });
        patch = none;
        trajectory = none;
        receipt = none;
        workspace = some "new";
      })
      else none;
  key_file = none;
  clock_reads = 0;
  writes = 0;
}

abbrev pub trajectory : Fields
trajectory = field "exit_status" (str "Submitted") (
    field "verification_status" (str "passed") (
      field "verified_fingerprint" (str "sha256:a.py=new") (
        field "events"
          (arr (
            cons
              (obj (
                field "type" (str "tool")
                  (field "tool" (str "run_tests") (field "returncode" (int (pos 0)) end))))
              nil))
          end)))

abbrev manifest_of : Result Manifest → Manifest
manifest_of (ok m) = m
manifest_of (err e) = manifest

abbrev returned : Result Manifest → Bool
returned (ok m) = true
returned (err e) = false

returned-eq :
    (p : Result Manifest × World String) → returned p.0 ≡ true → p ≡ (ok (manifest_of p.0), p.1)
returned-eq (ok m, w) h = refl
returned-eq (err e, w) h = cc

abbrev prepared_world : World String
prepared_world = (prepare env id trajectory world).1

abbrev prepared_manifest : Manifest
prepared_manifest = manifest_of (prepare env id trajectory world).0

prepare-returns : prepare env id trajectory world ≡ (ok prepared_manifest, prepared_world)
unfolding is_transaction_id directory replace_directory read_file read_clock write_file load save
    workspace_of is_submitted is_verified_at track_new_files write_patch receipt_key issue_receipt
    seal_patch prepare_verified prepare fingerprint missing_paths modified_paths diff sorted_set
    verification_checks events_of last_passing is_passing_event checks_of_event legacy_check to_int
    tests_run_field load_or_create_key
prepare-returns = refl

prepared-status : prepared_manifest.status ≡ prepared
unfolding is_transaction_id directory replace_directory read_file read_clock write_file load save
    workspace_of is_submitted is_verified_at track_new_files write_patch receipt_key issue_receipt
    seal_patch prepare_verified prepare fingerprint missing_paths modified_paths diff sorted_set
    verification_checks events_of last_passing is_passing_event checks_of_event legacy_check to_int
    tests_run_field load_or_create_key
prepared-status = refl

prepare-IsBound_example :
    (is_submitted trajectory ≡ true)
    × (d : Directory String) × (world.directories id ≡ some d)
    × (tree : String) × (d.workspace ≡ some tree)
    × (snapshot : List (String × String)) × (env.capture tree ≡ ok snapshot)
    × (is_verified_at trajectory (fingerprint library snapshot) ≡ true)
    × (prepared_manifest.prepared_fingerprint ≡ fingerprint library snapshot)
    × (tree' : String) × ((track_new_files env id tree world).0 ≡ ok tree')
    × (baseline : Baseline) × (d.baseline ≡ some baseline)
    × IsBound env baseline snapshot tree' prepared_manifest
prepare-IsBound_example =
    prepare-IsBound env id trajectory world prepared_manifest prepared_world prepare-returns
      prepared-status

prepare-Apart_example :
    ((prepare env id trajectory world).1.source ≡ "old")
    × ((prepare env id trajectory world).1.directories "other" ≡ none)
prepare-Apart_example = prepare-Apart env id trajectory world "other" refl

abbrev committed_world : World String
committed_world = (commit env id prepared_world).1

abbrev committed_manifest : Manifest
committed_manifest = manifest_of (commit env id prepared_world).0

commit-returns : returned (commit env id prepared_world).0 ≡ true
unfolding is_transaction_id directory replace_directory read_file read_clock write_file load save
    workspace_of is_submitted is_verified_at track_new_files write_patch receipt_key issue_receipt
    seal_patch prepare_verified prepare fingerprint missing_paths modified_paths diff sorted_set
    verification_checks events_of last_passing is_passing_event checks_of_event legacy_check to_int
    tests_run_field load_or_create_key remove_workspace stored_receipt matching_receipt apply_patch
    check_unchanged checked_patch check_committed admit_commit perform_commit commit digest_json
    workspace_identity receipt_payload seal load_existing_key is_identified load_receipt
    has_sections receipt_tests mismatches validate_receipt pop put pop_all put_all
    expected_source_files json_eq
commit-returns = refl

commit-content_example :
    (committed_manifest.status ≡ committed)
    × (m : Manifest) × (patch : String) × (load env id prepared_world ≡ (ok m, prepared_world))
    × Admissible env id m patch prepared_world
    × (v : World String) × (apply_patch env patch prepared_world ≡ (ok tt, v))
    × (content : List (String × String)) × (env.capture_content v.source ≡ ok content)
    × (fingerprint library content ≡ m.prepared_source_fingerprint)
commit-content_example =
    commit-content env id prepared_world committed_manifest committed_world
      (returned-eq (commit env id prepared_world) commit-returns)

commit-Admissible_example :
    (commit env id prepared_world).1 ≡ prepared_world
    ⊎ ((m : Manifest) × (patch : String) × (load env id prepared_world ≡ (ok m, prepared_world))
        × Admissible env id m patch prepared_world)
commit-Admissible_example = commit-Admissible env id prepared_world

abort-returns :
    abort env id prepared_world
    ≡ (ok (manifest_of (abort env id prepared_world).0), (abort env id prepared_world).1)
unfolding is_transaction_id directory replace_directory read_file read_clock write_file load save
    workspace_of is_submitted is_verified_at track_new_files write_patch receipt_key issue_receipt
    seal_patch prepare_verified prepare fingerprint missing_paths modified_paths diff sorted_set
    verification_checks events_of last_passing is_passing_event checks_of_event legacy_check to_int
    tests_run_field load_or_create_key remove_workspace abort mark_aborted
abort-returns = refl

abort-aborted_example :
    ((manifest_of (abort env id prepared_world).0).status ≡ aborted)
    × (m : Manifest) × (load env id prepared_world ≡ (ok m, prepared_world))
    × (is_committed m.status ≡ false)
abort-aborted_example =
    abort-aborted env id prepared_world (manifest_of (abort env id prepared_world).0)
      (abort env id prepared_world).1 abort-returns

validated_patch-returns : (validated_patch env id prepared_world).0 ≡ ok "new"
unfolding is_transaction_id directory replace_directory read_file read_clock write_file load save
    workspace_of is_submitted is_verified_at track_new_files write_patch receipt_key issue_receipt
    seal_patch prepare_verified prepare fingerprint missing_paths modified_paths diff sorted_set
    verification_checks events_of last_passing is_passing_event checks_of_event legacy_check to_int
    tests_run_field load_or_create_key remove_workspace stored_receipt matching_receipt apply_patch
    check_unchanged checked_patch check_committed admit_commit perform_commit commit digest_json
    workspace_identity receipt_payload seal load_existing_key is_identified load_receipt
    has_sections receipt_tests mismatches validate_receipt pop put pop_all put_all
    expected_source_files json_eq validated_receipt_for_manifest validated_patch
validated_patch-returns = refl

validated_patch-Receipted_example :
    (m : Manifest) × (load env id prepared_world ≡ (ok m, prepared_world))
    × ((is_prepared m.status || is_committed m.status) ≡ true)
    × Receipted env id m prepared_world
    × (library.sha256_hex "new" ≡ m.prepared_patch_sha256)
validated_patch-Receipted_example =
    validated_patch-Receipted env id prepared_world "new" validated_patch-returns
