-- ===== src/Transaction/Prepare/Bound.antt =====
-- What a prepared transaction is bound to.
use mini_code_agent_langgrap.Prelude.{
  ◌≡◌, refl, sym, ◌∙◌, ap, subst, Bool, eq_refl, true, false, not, List, Option, none, some, String,
  ok, arith, ℕ,
}
use mini_code_agent_langgrap.Prelude.Json.{Fields}
use mini_code_agent_langgrap.Manifest.{Manifest, Status, open_, prepared}
use mini_code_agent_langgrap.Workspace.{Files, Changes, fingerprint, diff}
use mini_code_agent_langgrap.Transaction.Store.{
  Baseline, Directory, World, Env, lift, replace_directory, raise_if, directory, read_file,
  read_clock, write_file, load, save, workspace_of,
}
use mini_code_agent_langgrap.Transaction.Reads.{
  read-eq-ok, ReadOnly-load, ReadOnly-raise_if, ReadOnly-workspace_of, ReadOnly-lift,
  ReadOnly-directory,
}
use mini_code_agent_langgrap.Transaction.Rules.{>>=-eq-ok, lift-eq-ok, if-eq-ok, raise_if-eq-ok}
use mini_code_agent_langgrap.Transaction.Prepare.{
  fail, set_workspace, track_new_files, write_patch, issue_receipt, seal_patch, prepare_verified,
  prepare, is_open, is_submitted, is_verified_at, prepared_manifest, expected_source_files,
  same_set, changed_paths,
}

is_open-eq_open : {s : Status} → is_open s ≡ true → s ≡ open_
is_open-eq_open {s = s} h = ground arith

not-false : {b : Bool} → not b ≡ false → b ≡ true
not-false h = ground arith

module _ {Tree : Type 0} (env : Env Tree) where
  save-ok :
      (m : Manifest) (w : World Tree) {m' : Manifest} {w' : World Tree}
      → save env m w ≡ (ok m', w')
      → (now : ℕ) × (m' ≡ record m { updated_at_ns = now })
  unfolding save
  save-ok m w h =
      let (_, v, _, h1) = >>=-eq-ok (directory m.id) _ w h in
      let (now, v1, _, h2) = >>=-eq-ok (read_clock env) _ v h1 in
      let (_, v2, _, h3) =
        >>=-eq-ok
          (write_file env m.id
            (λ d. record d { manifest = some (record m { updated_at_ns = now }) }))
          _ v1 h2 in
      (now, ground arith)

  fail-status :
      (m : Manifest) (text : String) (w : World Tree) {m' : Manifest} {w' : World Tree}
      → fail env m text w ≡ (ok m', w')
      → m'.status ≡ m.status
  unfolding fail
  fail-status m text w h =
      let (now, e) = save-ok (record m { failure = text }) w h in ap (λ n. n.status) e

-- What the manifest `m` of a prepared transaction says of its worktree, and how the baseline, the
-- changed files and the patch determine it.
pub record IsBound {Tree : Type 0} (env : Env Tree) (baseline : Baseline) (snapshot : Files)
    (tree : Tree) (m : Manifest) : Type 0 where
  pub content : Files
  pub patch : String
  pub represented : List String
  pub captured : env.capture_content tree ≡ ok content
  pub diffed : env.diff tree ≡ ok patch
  pub named : env.diff_names tree ≡ ok represented
  pub all_named :
      same_set represented (changed_paths (diff baseline.workspace_files content)) ≡ true
  pub fingerprint_eq : m.prepared_fingerprint ≡ fingerprint env.library snapshot
  pub content_eq : m.prepared_content_fingerprint ≡ fingerprint env.library content
  pub source_eq :
      m.prepared_source_fingerprint
      ≡ fingerprint env.library (
          expected_source_files
            (diff baseline.workspace_files content)
            content
            baseline.source_files)
  pub patch_eq : m.prepared_patch_sha256 ≡ env.library.sha256_hex patch

module _ {Tree : Type 0} where
  directory-stored :
      (id : String) (w : World Tree) (d : Directory Tree) {w' : World Tree}
      → directory id w ≡ (ok d, w')
      → w.directories id ≡ some d
  unfolding directory
  directory-stored id w d h = ground arith

  read_file-stored :
      {A : Type 0} (label : String) (file : Option A) (w : World Tree) {a : A} {w' : World Tree}
      → read_file label file w ≡ (ok a, w')
      → file ≡ some a
  unfolding read_file
  read_file-stored label none w h = cc
  read_file-stored label (some a) w h = cc

  workspace_of-stored :
      (id : String) (w : World Tree) {tree : Tree} {w' : World Tree}
      → workspace_of id w ≡ (ok tree, w')
      → (d : Directory Tree) × (w.directories id ≡ some d) × (d.workspace ≡ some tree)
  unfolding workspace_of
  workspace_of-stored id w h =
      let (d, found, h1) = read-eq-ok (directory id) _ w (ReadOnly-directory id) h in
      (d, directory-stored id w d found, ground arith)

  -- The worktree is the only file of the directory that `git add -N` changes.
  track_new_files-baseline :
      (env : Env Tree) (id : String) (tree : Tree) (w : World Tree) (d d' : Directory Tree)
      {tree' : Tree} {v : World Tree}
      → track_new_files env id tree w ≡ (ok tree', v)
      → w.directories id ≡ some d
      → v.directories id ≡ some d'
      → d.baseline ≡ d'.baseline
  unfolding track_new_files set_workspace replace_directory
  track_new_files-baseline env id tree w d d' h stored later = let same = eq_refl id in ground arith

module _ {Tree : Type 0} (env : Env Tree) (id : String) (trajectory : Fields) where
  seal_patch-ok :
      (m : Manifest) (snapshot content : Files) (changed : Changes) (baseline : Baseline)
      (tree : Tree) (w : World Tree) {m' : Manifest} {w' : World Tree}
      → seal_patch env id trajectory m snapshot content changed baseline tree w ≡ (ok m', w')
      → (patch : String) × (env.diff tree ≡ ok patch)
        × (receipt_id : String) × (now : ℕ) × (m'
            ≡ record (prepared_manifest env m snapshot content patch changed baseline) {
              receipt_id = receipt_id;
              updated_at_ns = now;
            })
  unfolding seal_patch
  seal_patch-ok m snapshot content changed baseline tree w h =
      let (patch, v, diffed, h1) = >>=-eq-ok (lift (env.diff tree)) _ w h in
      let (_, v1, _, h2) = >>=-eq-ok (write_patch env id patch) _ v h1 in
      let (_, v2, _, h3) =
        >>=-eq-ok (write_file env id (λ d. record d { trajectory = some trajectory })) _ v1 h2 in
      let n : Manifest = prepared_manifest env m snapshot content patch changed baseline in
      let (receipt_id, v3, _, h4) = >>=-eq-ok (issue_receipt env n trajectory) _ v2 h3 in
      let (now, e) = save-ok env (record n { receipt_id = receipt_id }) v3 h4 in
      (patch, lift-eq-ok (env.diff tree) w diffed, receipt_id, now, e)

  seal_patch-IsBound :
      (m : Manifest) (snapshot content : Files) (baseline : Baseline) (represented : List String)
      (tree : Tree) (w : World Tree) {m' : Manifest} {w' : World Tree}
      → env.capture_content tree ≡ ok content
      → env.diff_names tree ≡ ok represented
      → same_set represented (changed_paths (diff baseline.workspace_files content)) ≡ true
      → seal_patch env id trajectory m snapshot content
          (diff baseline.workspace_files content)
          baseline
          tree
          w
        ≡ (ok m', w')
      → IsBound env baseline snapshot tree m'
  seal_patch-IsBound m snapshot content baseline represented tree w captured named same h =
      let (patch, diffed, receipt_id, now, e) =
        seal_patch-ok m snapshot content (diff baseline.workspace_files content) baseline tree w
          h in
      subst (IsBound env baseline snapshot tree) (sym e) (record {
        content = content;
        patch = patch;
        represented = represented;
        captured = captured;
        diffed = diffed;
        named = named;
        all_named = same;
        fingerprint_eq = refl;
        content_eq = refl;
        source_eq = refl;
        patch_eq = refl;
      })

  prepare_verified-IsBound :
      (m : Manifest) (snapshot : Files) (tree : Tree) (w : World Tree) (d : Directory Tree)
      {m' : Manifest} {w' : World Tree}
      → w.directories id ≡ some d
      → prepare_verified env id trajectory m snapshot tree w ≡ (ok m', w')
      → m.status ≡ open_
      → m'.status ≡ prepared
      → (tree' : Tree) × ((track_new_files env id tree w).0 ≡ ok tree')
        × (baseline : Baseline) × (d.baseline ≡ some baseline)
        × IsBound env baseline snapshot tree' m'
  unfolding prepare_verified
  prepare_verified-IsBound m snapshot tree w d0 {m' = m'} stored h opened p =
      let (tree', v, tracked, h1) = >>=-eq-ok (track_new_files env id tree) _ w h in
      let (content, v1, captured, h2) = >>=-eq-ok (lift (env.capture_content tree')) _ v h1 in
      let same_world : v ≡ v1 = ap (λ p. p.1) captured in
      let (d, v2, found, h3) = >>=-eq-ok (directory id) _ v1 h2 in
      let (baseline, v3, loaded, h4) =
        >>=-eq-ok (read_file "transaction baseline" d.baseline) _ v2 h3 in
      let (represented, v4, named, h5) = >>=-eq-ok (lift (env.diff_names tree')) _ v3 h4 in
      if-eq-ok (same_set represented (changed_paths (diff baseline.workspace_files content))) _ _ v4
        h5
        (λ same sealed. (
          tree',
          ap (λ p. p.0) tracked,
          baseline,
          track_new_files-baseline env id tree w d0 d tracked stored (
                directory-stored id v d
                  (subst (λ x. directory id x ≡ (ok d, v2)) (sym same_world) found))
              ∙ read_file-stored _ d.baseline v2 loaded,
          seal_patch-IsBound m snapshot content baseline represented tree' v4
              (lift-eq-ok (env.capture_content tree') v captured)
              (lift-eq-ok (env.diff_names tree') v3 named) same sealed,
        ))
        (λ _ failed. let same = fail-status env m _ v4 failed in ground arith)

-- A transaction that `prepare` returns as prepared: the agent submitted, and the
-- verification of the trajectory passed at the fingerprint of the files that its stored workspace has;
-- that is the prepared fingerprint. The manifest's other digests are determined by the stored
-- baseline and by that workspace once its untracked files are added: its content, and its patch,
-- which names every path that differs from the baseline.
pub prepare-IsBound :
    {Tree : Type 0} (env : Env Tree) (id : String) (trajectory : Fields) (w : World Tree)
    (m : Manifest) (w' : World Tree)
    → prepare env id trajectory w ≡ (ok m, w')
    → m.status ≡ prepared
    → (is_submitted trajectory ≡ true)
      × (d : Directory Tree) × (w.directories id ≡ some d)
      × (tree : Tree) × (d.workspace ≡ some tree)
      × (snapshot : Files) × (env.capture tree ≡ ok snapshot)
      × (is_verified_at trajectory (fingerprint env.library snapshot) ≡ true)
      × (m.prepared_fingerprint ≡ fingerprint env.library snapshot)
      × (tree' : Tree) × ((track_new_files env id tree w).0 ≡ ok tree')
      × (baseline : Baseline) × (d.baseline ≡ some baseline)
      × IsBound env baseline snapshot tree' m
unfolding prepare
prepare-IsBound env id trajectory w m w' h p =
    let (n, _, h1) = read-eq-ok (load env id) _ w (ReadOnly-load env id) h in
    let (_, opened, h2) =
      read-eq-ok (raise_if (not (is_open n.status)) _) _ w (ReadOnly-raise_if _ _) h1 in
    let (tree, found, h3) = read-eq-ok (workspace_of id) _ w (ReadOnly-workspace_of id) h2 in
    let (d, stored, tree_eq) = workspace_of-stored id w found in
    let (snapshot, captured, h4) =
      read-eq-ok (lift (env.capture tree)) _ w (ReadOnly-lift (env.capture tree)) h3 in
    let n_opened : n.status ≡ open_ =
      is_open-eq_open (raise_if-eq-ok (is_open n.status) _ w opened) in
    if-eq-ok (not (is_submitted trajectory)) _ _ w h4
      (λ _ failed. let same = fail-status env n _ w failed in ground arith)
      (λ submitted h5.
        if-eq-ok (not (is_verified_at trajectory (fingerprint env.library snapshot))) _ _ w h5
          (λ _ failed. let same = fail-status env n _ w failed in ground arith)
          (λ verified h6.
            let (tree', tracked, baseline, baseline_eq, bound) =
              prepare_verified-IsBound env id trajectory n snapshot tree w d stored h6 n_opened p in
            (
              not-false submitted,
              d,
              stored,
              tree,
              tree_eq,
              snapshot,
              lift-eq-ok (env.capture tree) w captured,
              not-false verified,
              bound.fingerprint_eq,
              tree',
              tracked,
              baseline,
              baseline_eq,
              bound,
            )))
