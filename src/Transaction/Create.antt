-- ===== src/Transaction/Create.antt =====
-- `TransactionStore.create` of src/mini_code_agent/transaction.py. What it asks of the file system, of
-- Git and of the random source is the parameter `Begin`; the state of the source that `worktree_add`
-- leaves holds what others changed there meanwhile. `worktree_discard` is `git worktree remove --force`
-- without a check of its exit status: it may raise, and it tells whether it removed the worktree.
-- `rmtree` is what `shutil.rmtree(directory, ignore_errors=True)` leaves of a directory.
pub mod Rollback
use mini_code_agent_langgrap.Prelude.{
  ◌≡◌, refl, Bool, true, false, not, ◌&&◌, ◌||◌, List, [], ◌∷◌, Option, none, some, String, Result,
  ok, err, Exception, ◌==◌, eq_refl, arith, concat, if◌then◌else◌,
}
use mini_code_agent_langgrap.Manifest.{Manifest, open_}
use mini_code_agent_langgrap.Workspace.{Files, fingerprint}
use mini_code_agent_langgrap.Transaction.Store.{
  Directory, World, Env, Action, pure, lift, raise, raise_if, ◌>>=◌, ◌>>◌, read_clock, write_file,
  save, replace_directory, update_directory, transaction_version,
}

pub record Begin (Tree : Type 0) : Type 0 where
  pub source_path : String
  pub is_dir : Bool
  pub root_inside_source : Bool
  pub private_directory : Result (Unit {0})
  pub is_top_level : Result Bool
  pub is_clean : Tree → Result Bool
  pub project_identity : Result String
  pub fresh_id : String
  pub make_directory : Result (Unit {0})
  pub worktree_add : String → Tree → Result Tree × Tree
  pub trajectory_path : String
  pub worktree_discard : Tree → Result Bool × Tree
  pub rmtree : Directory Tree → Option (Directory Tree)

module _ {Tree : Type 0} where
  abbrev pub raise_named : Bool → String → String → Action Tree (Unit {0})
  raise_named test name text = if test then raise name text else pure tt

  abbrev empty_directory : Directory Tree
  empty_directory = record {
    manifest = none;
    baseline = none;
    patch = none;
    trajectory = none;
    receipt = none;
    workspace = none;
  }

  unfoldable pub make_directory : Begin Tree → Action Tree (Unit {0})
  make_directory begin w = elim begin.make_directory [
    | err e ↦ (err e, w)
    | ok _ ↦ (ok tt, replace_directory begin.fresh_id (some empty_directory) w)
  ]

  -- `shutil.rmtree(directory, ignore_errors=True)`
  unfoldable pub remove_tree : Begin Tree → World Tree → World Tree
  remove_tree begin w = elim (w.directories begin.fresh_id) [
    | none ↦ w
    | some d ↦ replace_directory begin.fresh_id (begin.rmtree d) w
  ]

  -- `git worktree add`, and the directory removed where it fails.
  unfoldable pub add_worktree : Begin Tree → String → Action Tree Tree
  unfolding remove_tree
  add_worktree begin commit w =
      let (r, source) = begin.worktree_add commit w.source in
      let w' : World Tree = record w { source = source } in
      elim r [
        | ok tree ↦
            (ok tree, update_directory begin.fresh_id (λ d. record d { workspace = some tree }) w')
        | err e ↦ (err e, remove_tree begin w')
      ]

  -- The world after Git's removal: without the worktree, if it was removed.
  abbrev pub left_by_git : Begin Tree → World Tree → Bool → Tree → World Tree
  left_by_git begin w removed source =
      let w' : World Tree = record w { source = source } in
      if removed
      then update_directory begin.fresh_id (λ d. record d { workspace = none }) w'
      else w'

  -- What follows Git's removal: where it raises, the directory stays.
  unfoldable pub after_discard :
      Begin Tree → World Tree → Result Bool × Tree → Result (Unit {0}) × World Tree
  unfolding remove_tree
  after_discard begin w (err e, source) = (err e, record w { source = source })
  after_discard begin w (ok removed, source) =
      (ok tt, remove_tree begin (left_by_git begin w removed source))

  -- The worktree and then the directory removed.
  unfoldable pub discard : Begin Tree → Action Tree (Unit {0})
  unfolding after_discard
  discard begin w = after_discard begin w (begin.worktree_discard w.source)

  -- The exception is raised again, unless the removal raises another one.
  abbrev pub raise_again :
      {A : Type 0} → Exception → Result (Unit {0}) × World Tree → Result A × World Tree
  raise_again e (ok _, w) = (err e, w)
  raise_again e (err e', w) = (err e', w)

  unfoldable pub discard_unless :
      {A : Type 0} → Begin Tree → Result A × World Tree → Result A × World Tree
  unfolding discard
  discard_unless begin (ok a, w) = (ok a, w)
  discard_unless begin (err e, w) = raise_again e (discard begin w)

  abbrev pub new_manifest :
      Begin Tree → String → String → String → String → String → String → Manifest
  new_manifest begin task mode commit identity fp content_fp = record {
    version = transaction_version;
    id = begin.fresh_id;
    status = open_;
    source = begin.source_path;
    baseline_commit = commit;
    baseline_fingerprint = fp;
    baseline_content_fingerprint = content_fp;
    prepared_fingerprint = "";
    prepared_content_fingerprint = "";
    prepared_source_fingerprint = "";
    prepared_patch_sha256 = "";
    receipt_id = "";
    task = task;
    memory_mode = some mode;
    workspace_identity_sha256 = some identity;
    created_at_ns = 0;
    updated_at_ns = 0;
    committed_at_ns = none;
    aborted_at_ns = none;
    trajectory = begin.trajectory_path;
    read_set = [];
    write_set = [];
    broad_read = false;
    broad_write = false;
    access_log = [];
    failure = "";
  }

  -- The tests of the source before anything is written.
  unfoldable pub admit_source : Begin Tree → String → Action Tree (Unit {0})
  admit_source begin mode w =
      (do
        raise_named (not (mode == "off" || mode == "local")) "ValueError"
            "transaction memory mode must be 'off' or 'local'"
        raise_named (not begin.is_dir) "FileNotFoundError"
            (concat ("source workspace is not a directory: " ∷ begin.source_path ∷ []))
        raise_if begin.root_inside_source
            "transaction state directory must be outside the source workspace"
        lift begin.private_directory
        top ← lift begin.is_top_level
        raise_if (not top) "transaction --cwd must be the root of its Git worktree"
        clean ← lift (begin.is_clean w.source)
        raise_if (not clean)
            "transaction source worktree must be clean at begin; inspect it with 'git status --short'")
        w

  -- The tests of the source after the worktree was added.
  unfoldable pub check_source : Begin Tree → Env Tree → String → String → Action Tree (Unit {0})
  check_source begin env commit fp w =
      (do
        clean ← lift (begin.is_clean w.source)
        files ← lift (env.capture w.source)
        head ← lift (env.head w.source)
        raise_if (not (clean && fingerprint env.library files == fp && head == commit))
            "source workspace changed while transaction begin was taking its snapshot")
        w

  -- The writes of `create`, which are undone where one of them raises.
  unfoldable pub write_transaction :
      Begin Tree → Env Tree → Manifest → Files → Tree → Action Tree Manifest
  unfolding check_source
  write_transaction begin env m content tree = do
    check_source begin env m.baseline_commit m.baseline_fingerprint
    overlay ← lift (env.capture_content tree)
    write_file env begin.fresh_id (λ d. record d {
      baseline = some (record { source_files = content; workspace_files = overlay });
    })
    save env m

  -- The times of `created_at_ns` and `updated_at_ns`, and the guarded writes.
  unfoldable pub write_or_discard :
      Begin Tree → Env Tree → Manifest → Files → Tree → Action Tree Manifest
  unfolding write_transaction discard_unless
  write_or_discard begin env m content tree = do
    created ← read_clock env
    updated ← read_clock env
    let m' : Manifest = record m { created_at_ns = created; updated_at_ns = updated }
    λ w. discard_unless begin (write_transaction begin env m' content tree w)

  unfoldable pub create : Begin Tree → Env Tree → String → String → Action Tree Manifest
  unfolding admit_source make_directory add_worktree write_or_discard
  create begin env task mode w =
      (do
        admit_source begin mode
        commit ← lift (env.head w.source)
        identity ← lift (
            if mode == "local"
            then begin.project_identity
            else ok (env.library.sha256_hex begin.source_path))
        files ← lift (env.capture w.source)
        content ← lift (env.capture_content w.source)
        make_directory begin
        tree ← add_worktree begin commit
        write_or_discard begin env
            (new_manifest begin task mode commit identity (fingerprint env.library files)
              (fingerprint env.library content))
            content tree)
        w
