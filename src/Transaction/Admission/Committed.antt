-- ===== src/Transaction/Admission/Committed.antt =====
-- What holds when `commit` returns.
use mini_code_agent_langgrap.Prelude.{
  ◌≡◌, sym, ◌∙◌, ap, subst, Option, none, some, String, ok, eq_iff, eq_refl, arith,
}
use mini_code_agent_langgrap.Manifest.{Manifest, committed}
use mini_code_agent_langgrap.Workspace.{Files, fingerprint}
use mini_code_agent_langgrap.Transaction.Store.{
  World, Env, lift, directory, read_file, read_clock, write_file, load, save, remove_workspace,
  replace_directory,
}
use mini_code_agent_langgrap.Transaction.Commit.{
  apply_patch, check_committed, admit_commit, perform_commit, commit,
}
use mini_code_agent_langgrap.Transaction.Rules.{>>=-eq-ok, lift-eq-ok, raise_if-eq-ok, load-id}
use mini_code_agent_langgrap.Transaction.Reads.{ReadOnly-lift, ReadOnly-load, read-eq-ok}
use mini_code_agent_langgrap.Transaction.Admission.{
  Admissible, ReadOnly-admit_commit, admit_commit-Admissible,
}

-- The manifest file of a transaction.
abbrev pub stored_manifest : {Tree : Type 0} → String → World Tree → Option Manifest
stored_manifest id w = elim (w.directories id) [ none ↦ none | some d ↦ d.manifest ]

module _ {Tree : Type 0} (env : Env Tree) where
  pub save-stored :
      (m : Manifest) (w : World Tree) {m' : Manifest} {w' : World Tree}
      → save env m w ≡ (ok m', w')
      → (stored_manifest m.id w' ≡ some m') × (m'.status ≡ m.status)
  unfolding save directory write_file replace_directory read_clock
  save-stored m w h = let same = eq_refl m.id in ground arith

  pub remove_workspace-manifest :
      (id : String) (w : World Tree)
      → stored_manifest id (remove_workspace env id w).1 ≡ stored_manifest id w
  unfolding remove_workspace directory replace_directory
  remove_workspace-manifest id w = let same = eq_refl id in ground arith

  pub load-status :
      (id : String) (w : World Tree) {m n : Manifest} {w' : World Tree}
      → load env id w ≡ (ok m, w')
      → stored_manifest id w ≡ some n
      → m.status ≡ n.status
  unfolding load directory read_file
  load-status id w h e = ground arith

  perform_commit-ok :
      (m : Manifest) (patch : String) (w : World Tree) {m' : Manifest} {w' : World Tree}
      → perform_commit env m patch w ≡ (ok m', w')
      → (v : World Tree) × (apply_patch env patch w ≡ (ok tt, v))
        × (content : Files) × (env.capture_content v.source ≡ ok content)
        × (fingerprint env.library content ≡ m.prepared_source_fingerprint)
        × (stored_manifest m.id w' ≡ some m')
        × (m'.status ≡ committed)
  unfolding perform_commit check_committed
  perform_commit-ok m patch w h =
      let (_, v, applied, h1) = >>=-eq-ok (apply_patch env patch) _ w h in
      let (_, v1, checked, h2) = >>=-eq-ok (check_committed env m) _ v h1 in
      let (content, captured, h3) =
        read-eq-ok (lift (env.capture_content v.source)) _ v (ReadOnly-lift _) checked in
      let (now, v2, _, h4) = >>=-eq-ok (read_clock env) _ v1 h2 in
      let (saved, status) =
        save-stored (record m { status = committed; committed_at_ns = some now }) v2 h4 in
      (
        v,
        applied,
        content,
        lift-eq-ok (env.capture_content v.source) v captured,
        (eq_iff (fingerprint env.library content) m.prepared_source_fingerprint).0
            (raise_if-eq-ok _ _ v h3),
        saved,
        status,
      )

-- When `commit` returns, it returns a committed manifest; the world it started from was admissible for
-- the manifest stored there, the patch of that manifest applied to the source, and the content of the
-- source was then the prepared one.
pub commit-content :
    {Tree : Type 0} (env : Env Tree) (id : String) (w : World Tree) (m' : Manifest)
    (w' : World Tree)
    → commit env id w ≡ (ok m', w')
    → (m'.status ≡ committed)
      × (m : Manifest) × (patch : String) × (load env id w ≡ (ok m, w))
      × Admissible env id m patch w
      × (v : World Tree) × (apply_patch env patch w ≡ (ok tt, v))
      × (content : Files) × (env.capture_content v.source ≡ ok content)
      × (fingerprint env.library content ≡ m.prepared_source_fingerprint)
unfolding commit
commit-content env id w m' w' h =
    let (m, loaded, h1) = read-eq-ok (load env id) _ w (ReadOnly-load env id) h in
    let (patch, admitted, h2) =
      read-eq-ok (admit_commit env id m) _ w (ReadOnly-admit_commit env id m) h1 in
    let (n, v1, performed, h3) = >>=-eq-ok (perform_commit env m patch) _ w h2 in
    let (_, v2, removed, h4) = >>=-eq-ok (remove_workspace env id) _ v1 h3 in
    let (v, applied, content, captured, same, saved, status) =
      perform_commit-ok env m patch w performed in
    let own : m.id ≡ id = load-id env id w (ap (λ p. p.0) loaded) in
    let kept : stored_manifest id v2 ≡ some n =
      sym (ap (λ p. stored_manifest id p.1) removed)
      ∙ remove_workspace-manifest env id v1
      ∙ subst (λ i. stored_manifest i v1 ≡ some n) own saved in
    (
      load-status env id v2 h4 kept ∙ status,
      m,
      patch,
      loaded,
      admit_commit-Admissible env id m w admitted,
      v,
      applied,
      content,
      captured,
      same,
    )
