-- ===== src/Transaction/Prepare/Untouched.antt =====
-- Where `prepare` writes: the directory of its transaction, and nothing of the source or of the other
-- transactions.
use mini_code_agent_langgrap.Prelude.{
  ◌≡◌, refl, sym, subst, false, not, Option, some, String, ◌==◌, arith,
}
use mini_code_agent_langgrap.Prelude.Json.{Fields, obj}
use mini_code_agent_langgrap.Manifest.{Manifest}
use mini_code_agent_langgrap.Workspace.{Files, Changes, fingerprint}
use mini_code_agent_langgrap.Receipt.{digest_json, receipt_payload, seal, verification_checks}
use mini_code_agent_langgrap.Transaction.Store.{
  Baseline, Directory, World, Env, lift, raise_if, directory, read_file, read_clock, write_file,
  load, save, workspace_of, replace_directory,
}
use mini_code_agent_langgrap.Transaction.Rules.{
  Keeps, Keeps-pure, Keeps-lift, Keeps-raise, Keeps-if, Keeps-bind, Keeps-bind-ok, Keeps-raise_if,
  Keeps-directory, Keeps-read_file, Keeps-load, Keeps-workspace_of, load-id,
}
use mini_code_agent_langgrap.Transaction.Prepare.{
  fail, set_workspace, track_new_files, write_patch, prepared_manifest, receipt_key, issue_receipt,
  seal_patch, prepare_verified, prepare, is_submitted, is_verified_at,
}

-- The source is `s`, and the directory of the transaction `j` is `d`.
abbrev pub Apart : {Tree : Type 0} → String → Tree → Option (Directory Tree) → World Tree → Type 0
Apart j s d w = (w.source ≡ s) × (w.directories j ≡ d)

module _ {Tree : Type 0} (env : Env Tree) (id j : String) (apart : (id == j) ≡ false) {s : Tree}
    {d : Option (Directory Tree)} where
  Keeps-write_file :
      (change : Directory Tree → Directory Tree) → Keeps (Apart j s d) (write_file env id change)
  unfolding write_file replace_directory
  Keeps-write_file change = record { at = λ w h. ground arith }

  Keeps-write_at :
      (i : String)
      → i ≡ id
      → (change : Directory Tree → Directory Tree) → Keeps (Apart j s d) (write_file env i change)
  Keeps-write_at i e change =
      subst (λ k. Keeps (Apart j s d) (write_file env k change)) (sym e) (Keeps-write_file change)

  Keeps-read_clock : Keeps (Apart j s d) (read_clock env)
  unfolding read_clock
  Keeps-read_clock = record { at = λ w h. h }

  Keeps-receipt_key : Keeps (Apart j s d) (receipt_key env)
  unfolding receipt_key
  Keeps-receipt_key = record { at = λ w h. h }

  Keeps-track_new_files : (tree : Tree) → Keeps (Apart j s d) (track_new_files env id tree)
  unfolding track_new_files set_workspace replace_directory
  Keeps-track_new_files tree = record { at = λ w h. ground arith }

  Keeps-save : (m : Manifest) → m.id ≡ id → Keeps (Apart j s d) (save env m)
  unfolding save
  Keeps-save m e = Keeps-bind (directory m.id) _ (Keeps-directory m.id) (λ _.
      Keeps-bind (read_clock env) _ Keeps-read_clock (λ now.
        Keeps-bind
          (write_file env m.id
            (λ d. record d { manifest = some (record m { updated_at_ns = now }) }))
          _ (Keeps-write_at _ e _) (λ _. Keeps-pure _)))

  Keeps-fail : (m : Manifest) (text : String) → m.id ≡ id → Keeps (Apart j s d) (fail env m text)
  unfolding fail
  Keeps-fail m text e = Keeps-save (record m { failure = text }) e

  Keeps-issue_receipt :
      (m : Manifest) (trajectory : Fields)
      → m.id ≡ id
      → Keeps (Apart j s d) (issue_receipt env m trajectory)
  unfolding issue_receipt
  Keeps-issue_receipt m trajectory e =
      Keeps-bind (lift (verification_checks env.library trajectory)) _ (Keeps-lift _) (λ checks.
        Keeps-bind (read_clock env) _ Keeps-read_clock (λ now.
          Keeps-bind (receipt_key env) _ Keeps-receipt_key (λ key.
            Keeps-bind
              (write_file env m.id (λ d. record d {
                receipt = some (
                    obj
                      (seal env.library key (receipt_payload env.library m trajectory checks now)));
              }))
              _ (Keeps-write_at _ e _)
              (λ _. Keeps-pure (
                digest_json env.library
                  (obj (receipt_payload env.library m trajectory checks now)))))))

  Keeps-write_patch : (patch : String) → Keeps (Apart j s d) (write_patch env id patch)
  unfolding write_patch
  Keeps-write_patch patch = Keeps-if _ _ _ (Keeps-raise _ _) (Keeps-write_file _)

  Keeps-seal_patch :
      (trajectory : Fields) (m : Manifest)
      → m.id ≡ id
      → (snapshot content : Files) (changed : Changes) (baseline : Baseline) (tree : Tree)
      → Keeps (Apart j s d) (seal_patch env id trajectory m snapshot content changed baseline tree)
  unfolding seal_patch
  Keeps-seal_patch trajectory m e snapshot content changed baseline tree =
      Keeps-bind (lift (env.diff tree)) _ (Keeps-lift _) (λ patch.
        Keeps-bind (write_patch env id patch) _ (Keeps-write_patch patch) (λ _.
          Keeps-bind (write_file env id (λ d. record d { trajectory = some trajectory })) _
            (Keeps-write_file _)
            (λ _.
              Keeps-bind
                (issue_receipt env (prepared_manifest env m snapshot content patch changed baseline)
                  trajectory)
                _ (Keeps-issue_receipt _ trajectory e)
                (λ receipt_id.
                  Keeps-save
                    (record (prepared_manifest env m snapshot content patch changed baseline) {
                      receipt_id = receipt_id;
                    })
                    e))))

  Keeps-prepare_verified :
      (trajectory : Fields) (m : Manifest)
      → m.id ≡ id
      → (snapshot : Files) (tree : Tree)
      → Keeps (Apart j s d) (prepare_verified env id trajectory m snapshot tree)
  unfolding prepare_verified
  Keeps-prepare_verified trajectory m e snapshot tree =
      Keeps-bind (track_new_files env id tree) _ (Keeps-track_new_files tree) (λ tree'.
        Keeps-bind (lift (env.capture_content tree')) _ (Keeps-lift _) (λ content.
          Keeps-bind (directory id) _ (Keeps-directory id) (λ d.
            Keeps-bind (read_file _ d.baseline) _ (Keeps-read_file _ d.baseline) (λ baseline.
              Keeps-bind (lift (env.diff_names tree')) _ (Keeps-lift _) (λ represented.
                Keeps-if _ _ _ (Keeps-seal_patch trajectory m e snapshot content _ baseline tree')
                  (Keeps-fail m _ e))))))

  Keeps-prepare : (trajectory : Fields) → Keeps (Apart j s d) (prepare env id trajectory)
  unfolding prepare
  Keeps-prepare trajectory = Keeps-bind-ok (load env id) _ (Keeps-load env id) (λ m w e.
      Keeps-bind (raise_if _ _) _ (Keeps-raise_if _ _) (λ _.
        Keeps-bind (workspace_of id) _ (Keeps-workspace_of id) (λ tree.
          Keeps-bind (lift (env.capture tree)) _ (Keeps-lift _) (λ snapshot.
            Keeps-if (not (is_submitted trajectory)) _ _ (Keeps-fail m _ (load-id env id w e)) (
              Keeps-if (not (is_verified_at trajectory (fingerprint env.library snapshot))) _ _
                (Keeps-fail m _ (load-id env id w e))
                (Keeps-prepare_verified trajectory m (load-id env id w e) snapshot tree))))))

-- `prepare`, whether it returns or raises, changes neither the source nor the directory of any other
-- transaction.
pub prepare-Apart :
    {Tree : Type 0} (env : Env Tree) (id : String) (trajectory : Fields) (w : World Tree)
    (j : String)
    → (id == j) ≡ false
    → ((prepare env id trajectory w).1.source ≡ w.source)
      × ((prepare env id trajectory w).1.directories j ≡ w.directories j)
prepare-Apart env id trajectory w j apart =
    (Keeps-prepare env id j apart trajectory).at w (refl, refl)
