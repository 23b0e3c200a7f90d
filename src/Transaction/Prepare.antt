-- ===== src/Transaction/Prepare.antt =====
-- `TransactionStore.prepare` of src/mini_code_agent/transaction.py.
pub mod Bound
pub mod Untouched
use Prim.Native.String.{len}
use mini_code_agent_langgrap.Prelude.{
  ℕ, Bool, true, false, not, ◌&&◌, ◌||◌, List, [], ◌∷◌, ◌++◌, Option, none, some, String, Result,
  ok, err, ◌==◌, leb, ltb, is_empty, concat, join, all, contains, if◌then◌else◌,
}
use mini_code_agent_langgrap.Prelude.Json.{
  Json, null, str, obj, Items, Fields, get_default, equals_str,
}
use mini_code_agent_langgrap.Prelude.Library.{Library}
use mini_code_agent_langgrap.Manifest.{Manifest, Status, open_, prepared, committed, aborted}
use mini_code_agent_langgrap.Workspace.{
  Files, lookup, pop, put, fingerprint, sorted_set, Changes, diff,
}
use mini_code_agent_langgrap.Receipt.{
  verification_checks, receipt_payload, seal, load_or_create_key, digest_json,
}
use mini_code_agent_langgrap.Transaction.Store.{
  Baseline, Directory, World, Env, Action, pure, lift, raise, raise_if, ◌>>=◌, ◌>>◌,
  max_state_file_bytes, directory, read_file, read_clock, write_file, load, save, workspace_of,
  replace_directory,
}

abbrev pub status_text : Status → String
status_text open_ = "open"
status_text prepared = "prepared"
status_text committed = "committed"
status_text aborted = "aborted"

abbrev pub is_open : Status → Bool
is_open open_ = true
is_open _ = false

-- `trajectory.get("exit_status") == "Submitted"`
unfoldable pub is_submitted : Fields → Bool
is_submitted trajectory = equals_str "Submitted" (get_default "exit_status" null trajectory)

-- The verification of the trajectory passed, at this fingerprint.
unfoldable pub is_verified_at : Fields → String → Bool
is_verified_at trajectory fp =
    equals_str "passed" (get_default "verification_status" null trajectory)
    && equals_str fp (get_default "verified_fingerprint" null trajectory)

abbrev subset : List String → List String → Bool
subset xs ys = all (λ x. contains x ys) xs

-- `set(xs) == set(ys)`
abbrev pub same_set : List String → List String → Bool
same_set xs ys = subset xs ys && subset ys xs

abbrev filter_out : List String → List String → List String
filter_out ys [] = []
filter_out ys (x ∷ xs) = let more = filter_out ys xs in if contains x ys then more else x ∷ more

-- `", ".join(sorted(xs - ys)) or "unknown"`
unfoldable pub missing_text : List String → List String → String
missing_text xs ys =
    let text = join ", " (sorted_set (filter_out ys xs)) in
    if is_empty text then "unknown" else text

-- The loops that take the changes over into the files of the source.
unfoldable pub pop_all : List String → Files → Files
pop_all [] files = files
pop_all (p ∷ rest) files = pop_all rest (pop p files)

unfoldable pub put_all : List String → Files → Files → Files
put_all [] content files = files
put_all (p ∷ rest) content files =
    put_all rest content
      (elim (lookup p content) [ none ↦ files | some digest ↦ put p digest files ])

unfoldable pub expected_source_files : Changes → Files → Files → Files
unfolding pop_all put_all
expected_source_files changed content source_files =
    put_all (changed.created ++ changed.modified) content (pop_all changed.deleted source_files)

-- `expected_paths`
abbrev pub changed_paths : Changes → List String
changed_paths changed = changed.created ++ (changed.deleted ++ changed.modified)

module _ {Tree : Type 0} (env : Env Tree) where
  -- `manifest["failure"] = text; self.save(manifest); return manifest`
  unfoldable pub fail : Manifest → String → Action Tree Manifest
  fail m text = save env (record m { failure = text })

  unfoldable pub set_workspace : String → Tree → World Tree → World Tree
  set_workspace id tree w = elim (w.directories id) [
    | none ↦ w
    | some d ↦ replace_directory id (some (record d { workspace = some tree })) w
  ]

  -- `git add -N` on the untracked files, if there are any; the worktree afterwards.
  unfoldable pub track_new_files : String → Tree → Action Tree Tree
  unfolding set_workspace
  track_new_files id tree w = elim (env.untracked tree) [
    | err e ↦ (err e, w)
    | ok [] ↦ (ok tree, w)
    | ok (p ∷ ps) ↦
        let (r, tree') = env.add_intent (p ∷ ps) tree in
        let w' = set_workspace id tree' w in elim r [ ok _ ↦ (ok tree', w') | err e ↦ (err e, w') ]
  ]

  -- `atomic_write_text` of the patch, which has a size limit.
  unfoldable pub write_patch : String → String → Action Tree (Unit {0})
  write_patch id patch =
      if ltb max_state_file_bytes (len patch)
      then raise "ValueError" "state file exceeds the 268435456-byte safety limit"
      else write_file env id (λ d. record d { patch = some patch })

  -- The key file of the store's root.
  unfoldable pub receipt_key : Action Tree String
  receipt_key w =
      let (key, file) = load_or_create_key w.key_file env.fresh_key in
      (key, record w { key_file = file })

  -- `issue_receipt`: the receipt's id.
  unfoldable pub issue_receipt : Manifest → Fields → Action Tree String
  unfolding receipt_key
  issue_receipt m trajectory = do
    checks ← lift (verification_checks env.library trajectory)
    now ← read_clock env
    let payload : Fields = receipt_payload env.library m trajectory checks now
    key ← receipt_key
    write_file env m.id (λ d. record d { receipt = some (obj (seal env.library key payload)) })
    pure (digest_json env.library (obj payload))

  -- The manifest of a prepared transaction, before its receipt has an id.
  abbrev pub prepared_manifest : Manifest → Files → Files → String → Changes → Baseline → Manifest
  prepared_manifest m snapshot content patch changed baseline = record m {
    prepared_fingerprint = fingerprint env.library snapshot;
    prepared_content_fingerprint = fingerprint env.library content;
    prepared_source_fingerprint =
        fingerprint env.library (expected_source_files changed content baseline.source_files);
    prepared_patch_sha256 = env.library.sha256_hex patch;
    status = prepared;
    failure = "";
  }

  -- What follows once the Git diff is known to represent every change.
  unfoldable pub seal_patch :
      String → Fields → Manifest → Files → Files → Changes → Baseline → Tree → Action Tree Manifest
  unfolding write_patch issue_receipt
  seal_patch id trajectory m snapshot content changed baseline tree = do
    patch ← lift (env.diff tree)
    write_patch id patch
    let m' : Manifest = prepared_manifest m snapshot content patch changed baseline
    write_file env id (λ d. record d { trajectory = some trajectory })
    receipt_id ← issue_receipt m' trajectory
    save env (record m' { receipt_id = receipt_id })

  -- What follows once the submission is known to be bound to the workspace.
  unfoldable pub prepare_verified : String → Fields → Manifest → Files → Tree → Action Tree Manifest
  unfolding seal_patch track_new_files fail
  prepare_verified id trajectory m snapshot tree = do
    tree' ← track_new_files id tree
    content ← lift (env.capture_content tree')
    d ← directory id
    baseline ← read_file "transaction baseline" d.baseline
    let changed : Changes = diff baseline.workspace_files content
    represented ← lift (env.diff_names tree')
    let expected : List String = changed_paths changed
    if same_set represented expected
        then seal_patch id trajectory m snapshot content changed baseline tree'
        else fail m (
            concat (
              "workspace contains changes the Git patch cannot represent: "
              ∷ missing_text expected represented
              ∷ []))

  unfoldable pub prepare : String → Fields → Action Tree Manifest
  unfolding prepare_verified fail
  prepare id trajectory = do
    m ← load env id
    raise_if (not (is_open m.status))
        (concat ("cannot prepare transaction in " ∷ status_text m.status ∷ " state" ∷ []))
    tree ← workspace_of id
    snapshot ← lift (env.capture tree)
    if not (is_submitted trajectory)
        then fail m "agent did not submit"
        else if not (is_verified_at trajectory (fingerprint env.library snapshot))
        then fail m "submission is not bound to the prepared workspace"
        else prepare_verified id trajectory m snapshot tree
