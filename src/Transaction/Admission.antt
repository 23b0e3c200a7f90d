-- ===== src/Transaction/Admission.antt =====
-- What `commit` knows of the source, of the workspace, of the receipt and of the patch when it writes.
pub mod Committed
pub mod Aborted
pub mod Validated
use mini_code_agent_langgrap.Prelude.{
  ◌≡◌, refl, sym, ◌∙◌, ap, subst, Bool, true, false, not, Option, none, some, String, Result, ok,
  err, ◌==◌, eq_iff, arith, if◌then◌else◌, is_empty, ◌⊎◌, inl, inr,
}
use mini_code_agent_langgrap.Prelude.Json.{Fields}
use mini_code_agent_langgrap.Manifest.{Manifest, Status, open_, prepared, committed, aborted}
use mini_code_agent_langgrap.Workspace.{Files, fingerprint}
use mini_code_agent_langgrap.Receipt.{load_receipt, validate_receipt, payload_of}
use mini_code_agent_langgrap.Transaction.Store.{
  Directory, World, Env, Action, pure, lift, raise, raise_if, continue, ◌>>=◌, ◌>>◌, directory,
  read_file, load, workspace_of,
}
use mini_code_agent_langgrap.Transaction.Commit.{
  stored_receipt, has_receipt_id, matching_receipt, check_unchanged, checked_patch, admit_commit,
  is_prepared, perform_commit, commit,
}
use mini_code_agent_langgrap.Transaction.Rules.{lift-eq-ok, raise_if-eq-ok}
use mini_code_agent_langgrap.Transaction.Reads.{
  ReadOnly, ReadOnly-lift, ReadOnly-read_file, ReadOnly-raise_if, ReadOnly-directory, ReadOnly-load,
  ReadOnly-workspace_of, ReadOnly-bind, read-eq-ok,
}

-- The source and the prepared workspace are as the manifest says.
pub record Unchanged {Tree : Type 0} (env : Env Tree) (m : Manifest) (source tree : Tree)
    : Type 0 where
  pub head_eq : env.head source ≡ ok m.baseline_commit
  pub source_files : Files
  pub source_captured : env.capture source ≡ ok source_files
  pub source_eq : fingerprint env.library source_files ≡ m.baseline_fingerprint
  pub files : Files
  pub captured : env.capture tree ≡ ok files
  pub prepared_eq : fingerprint env.library files ≡ m.prepared_fingerprint

module _ {Tree : Type 0} (env : Env Tree) (id : String) (m : Manifest) where
  check_unchanged-ok :
      (w : World Tree) {u : Unit {0}} {w' : World Tree}
      → check_unchanged env id m w ≡ (ok u, w')
      → (tree : Tree) × (workspace_of id w ≡ (ok tree, w)) × Unchanged env m w.source tree
  unfolding check_unchanged
  check_unchanged-ok w h =
      let (tree, found, h1) = read-eq-ok (workspace_of id) _ w (ReadOnly-workspace_of id) h in
      let (head, head_ok, h2) = read-eq-ok (lift (env.head w.source)) _ w (ReadOnly-lift _) h1 in
      let (_, same_head, h3) =
        read-eq-ok (raise_if (not (head == m.baseline_commit)) _) _ w (ReadOnly-raise_if _ _) h2 in
      let (files, files_ok, h4) =
        read-eq-ok (lift (env.capture w.source)) _ w (ReadOnly-lift _) h3 in
      let (_, same_source, h5) =
        read-eq-ok (raise_if (not (fingerprint env.library files == m.baseline_fingerprint)) _) _ w
          (ReadOnly-raise_if _ _) h4 in
      let (prepared_files, prepared_ok, h6) =
        read-eq-ok (lift (env.capture tree)) _ w (ReadOnly-lift _) h5 in
      (
        tree,
        found,
        record {
          head_eq =
              lift-eq-ok (env.head w.source) w head_ok
              ∙ ap ok ((eq_iff head m.baseline_commit).0 (raise_if-eq-ok _ _ w same_head));
          source_files = files;
          source_captured = lift-eq-ok (env.capture w.source) w files_ok;
          source_eq =
              (eq_iff (fingerprint env.library files) m.baseline_fingerprint).0
                (raise_if-eq-ok _ _ w same_source);
          files = prepared_files;
          captured = lift-eq-ok (env.capture tree) w prepared_ok;
          prepared_eq =
              (eq_iff (fingerprint env.library prepared_files) m.prepared_fingerprint).0
                (raise_if-eq-ok _ _ w h6);
        },
      )

-- The receipt `receipt` is that of the manifest: the stored one, authentic, and with the fields that
-- the manifest and the stored trajectory determine.
pub record Receipted {Tree : Type 0} (env : Env Tree) (id : String) (m : Manifest) (w : World Tree)
    : Type 0 where
  pub files : Directory Tree
  pub files_found : directory id w ≡ (ok files, w)
  pub trajectory : Fields
  pub trajectory_found : files.trajectory ≡ some trajectory
  pub receipt : Fields
  pub loaded : load_receipt env.library files.receipt w.key_file id ≡ ok receipt
  pub identified : has_receipt_id env receipt m.receipt_id ≡ true
  pub valid : validate_receipt env.library (payload_of receipt) m trajectory ≡ ok tt

read_file-ok :
    {Tree A : Type 0} (label : String) (file : Option A) (w : World Tree) {a : A} {w' : World Tree}
    → read_file label file w ≡ (ok a, w')
    → file ≡ some a
unfolding read_file
read_file-ok label none w h = cc
read_file-ok label (some b) w h = cc

module _ {Tree : Type 0} (env : Env Tree) (id : String) (m : Manifest) where
  ReadOnly-stored_receipt : ReadOnly (stored_receipt env id)
  unfolding stored_receipt
  ReadOnly-stored_receipt =
      ReadOnly-bind (directory id) _ (ReadOnly-directory id) (λ d. record { world = λ w. refl })

  stored_receipt-ok :
      (w : World Tree) {receipt : Fields} {w' : World Tree}
      → stored_receipt env id w ≡ (ok receipt, w')
      → (d : Directory Tree) × (directory id w ≡ (ok d, w))
        × (load_receipt env.library d.receipt w.key_file id ≡ ok receipt)
  unfolding stored_receipt
  stored_receipt-ok w h =
      let (d, found, h1) = read-eq-ok (directory id) _ w (ReadOnly-directory id) h in
      (d, found, ap (λ p. p.0) h1)

  pub matching_receipt-ok :
      (w : World Tree) {r : Fields} {w' : World Tree}
      → matching_receipt env id m w ≡ (ok r, w')
      → Receipted env id m w
  unfolding matching_receipt
  matching_receipt-ok w h =
      let (d, found, h1) = read-eq-ok (directory id) _ w (ReadOnly-directory id) h in
      let (trajectory, t, h2) =
        read-eq-ok (read_file _ d.trajectory) _ w (ReadOnly-read_file _ d.trajectory) h1 in
      let (receipt, stored, h3) =
        read-eq-ok (stored_receipt env id) _ w ReadOnly-stored_receipt h2 in
      let (_, identified, h4) =
        read-eq-ok (raise_if (not (has_receipt_id env receipt m.receipt_id)) _) _ w
          (ReadOnly-raise_if _ _) h3 in
      let (u, valid, _) =
        read-eq-ok (lift (validate_receipt env.library (payload_of receipt) m trajectory)) _ w
          (ReadOnly-lift _) h4 in
      let (d', found', loaded) = stored_receipt-ok w stored in
      record {
        files = d';
        files_found = found';
        trajectory = trajectory;
        trajectory_found =
            same_directory d d' found found' (λ x. x.trajectory ≡ some trajectory)
              (read_file-ok _ d.trajectory w t);
        receipt = receipt;
        loaded = loaded;
        identified = raise_if-eq-ok _ _ w identified;
        valid = lift-eq-ok _ w valid;
      }
    where
      same_directory :
          {w : World Tree} (d d' : Directory Tree)
          → directory id w ≡ (ok d, w)
          → directory id w ≡ (ok d', w)
          → (P : Directory Tree → Type 0) → P d
          → P d'
      same_directory d d' e e' P h = subst P (cc) h

  checked_patch-ok :
      (w : World Tree) {patch : String} {w' : World Tree}
      → checked_patch env id m w ≡ (ok patch, w')
      → (d : Directory Tree) × (directory id w ≡ (ok d, w))
        × (d.patch ≡ some patch)
        × (env.library.sha256_hex patch ≡ m.prepared_patch_sha256)
  unfolding checked_patch
  checked_patch-ok w {patch = patch} h =
      let (d, found, h1) = read-eq-ok (directory id) _ w (ReadOnly-directory id) h in
      let (text, t, h2) =
        read-eq-ok (read_file "prepared patch" d.patch) _ w (ReadOnly-read_file _ d.patch) h1 in
      let (_, same, h3) =
        read-eq-ok (raise_if (not (env.library.sha256_hex text == m.prepared_patch_sha256)) _) _ w
          (ReadOnly-raise_if _ _) h2 in
      let e : text ≡ patch = cc in
      subst
        (λ x.
          (d : Directory Tree) × (directory id w ≡ (ok d, w))
          × (d.patch ≡ some x)
          × (env.library.sha256_hex x ≡ m.prepared_patch_sha256))
        e
        (
          d,
          found,
          read_file-ok _ d.patch w t,
          (eq_iff (env.library.sha256_hex text) m.prepared_patch_sha256).0
              (raise_if-eq-ok _ _ w same),
        )

-- A world in which `commit` may write: a prepared manifest, the source and the workspace it names,
-- its receipt and its patch.
pub record Admissible {Tree : Type 0} (env : Env Tree) (id : String) (m : Manifest) (patch : String)
    (w : World Tree) : Type 0 where
  pub status_eq : m.status ≡ prepared
  pub tree : Tree
  pub tree_found : workspace_of id w ≡ (ok tree, w)
  pub unchanged : Unchanged env m w.source tree
  pub receipted : Receipted env id m w
  pub files : Directory Tree
  pub files_found : directory id w ≡ (ok files, w)
  pub patch_found : files.patch ≡ some patch
  pub patch_eq : env.library.sha256_hex patch ≡ m.prepared_patch_sha256

is_prepared-eq_prepared : {s : Status} → is_prepared s ≡ true → s ≡ prepared
is_prepared-eq_prepared {s = s} h = ground arith

module _ {Tree : Type 0} (env : Env Tree) (id : String) (m : Manifest) where
  ReadOnly-check_unchanged : ReadOnly (check_unchanged env id m)
  unfolding check_unchanged
  ReadOnly-check_unchanged = record {
    world = λ w.
        (ReadOnly-bind (workspace_of id) _ (ReadOnly-workspace_of id) (λ tree.
            ReadOnly-bind (lift (env.head w.source)) _ (ReadOnly-lift _) (λ head.
              ReadOnly-bind (raise_if (not (head == m.baseline_commit)) _) _ (ReadOnly-raise_if _ _)
                (λ _. ReadOnly-bind (lift (env.capture w.source)) _ (ReadOnly-lift _) (λ files.
                  ReadOnly-bind
                    (raise_if (not (fingerprint env.library files == m.baseline_fingerprint)) _) _
                    (ReadOnly-raise_if _ _)
                    (λ _.
                      ReadOnly-bind (lift (env.capture tree)) _ (ReadOnly-lift _) (λ prepared_files.
                        ReadOnly-raise_if
                          (not (fingerprint env.library prepared_files == m.prepared_fingerprint))
                          _))))))).world
          w;
  }

  ReadOnly-matching_receipt : ReadOnly (matching_receipt env id m)
  unfolding matching_receipt
  ReadOnly-matching_receipt = ReadOnly-bind (directory id) _ (ReadOnly-directory id) (λ d.
      ReadOnly-bind (read_file _ d.trajectory) _ (ReadOnly-read_file _ d.trajectory) (λ trajectory.
        ReadOnly-bind (stored_receipt env id) _ (ReadOnly-stored_receipt env id m) (λ receipt.
          ReadOnly-bind (raise_if (not (has_receipt_id env receipt m.receipt_id)) _) _
            (ReadOnly-raise_if _ _)
            (λ _.
              ReadOnly-bind (lift (validate_receipt env.library (payload_of receipt) m trajectory))
                _ (ReadOnly-lift _) (λ _. record { world = λ w. refl })))))

  ReadOnly-checked_patch : ReadOnly (checked_patch env id m)
  unfolding checked_patch
  ReadOnly-checked_patch = ReadOnly-bind (directory id) _ (ReadOnly-directory id) (λ d.
      ReadOnly-bind (read_file _ d.patch) _ (ReadOnly-read_file _ d.patch) (λ patch.
        ReadOnly-bind (raise_if (not (env.library.sha256_hex patch == m.prepared_patch_sha256)) _) _
          (ReadOnly-raise_if _ _) (λ _. record { world = λ w. refl })))

  pub ReadOnly-admit_commit : ReadOnly (admit_commit env id m)
  unfolding admit_commit
  ReadOnly-admit_commit =
      ReadOnly-bind (raise_if (not (is_prepared m.status)) _) _ (ReadOnly-raise_if _ _) (λ _.
        ReadOnly-bind (check_unchanged env id m) _ ReadOnly-check_unchanged (λ _.
          ReadOnly-bind (matching_receipt env id m) _ ReadOnly-matching_receipt
            (λ _. ReadOnly-checked_patch)))

  pub admit_commit-Admissible :
      (w : World Tree) {patch : String} {w' : World Tree}
      → admit_commit env id m w ≡ (ok patch, w')
      → Admissible env id m patch w
  unfolding admit_commit
  admit_commit-Admissible w h =
      let (_, status, h1) =
        read-eq-ok (raise_if (not (is_prepared m.status)) _) _ w (ReadOnly-raise_if _ _) h in
      let (_, same, h2) = read-eq-ok (check_unchanged env id m) _ w ReadOnly-check_unchanged h1 in
      let (_, receipt, h3) =
        read-eq-ok (matching_receipt env id m) _ w ReadOnly-matching_receipt h2 in
      let (tree, found, unchanged) = check_unchanged-ok env id m w same in
      let (d, d_found, patch_found, patch_eq) = checked_patch-ok env id m w h3 in
      record {
        status_eq = is_prepared-eq_prepared (raise_if-eq-ok _ _ w status);
        tree = tree;
        tree_found = found;
        unchanged = unchanged;
        receipted = matching_receipt-ok env id m w receipt;
        files = d;
        files_found = d_found;
        patch_found = patch_found;
        patch_eq = patch_eq;
      }

module _ {Tree A B : Type 0} where
  -- A step that only reads, whether it returns or raises.
  read-cases :
      (m : Action Tree A) (f : A → Action Tree B) (w : World Tree)
      → ReadOnly m
      → ((m >>= f) w).1 ≡ w ⊎ ((a : A) × (m w ≡ (ok a, w)) × ((m >>= f) w ≡ f a w))
  read-cases m f w r = go (m w) refl (r.world w)
    where
      go :
          (p : Result A × World Tree)
          → m w ≡ p
          → w ≡ (m w).1
          → ((m >>= f) w).1 ≡ w ⊎ ((a : A) × (m w ≡ (ok a, w)) × ((m >>= f) w ≡ f a w))
      go (ok a, v) e same =
          let back : v ≡ w = cc in
          inr (a, e ∙ ap (λ x. (ok a, x)) back, ap (continue f) (e ∙ ap (λ x. (ok a, x)) back))
      go (err x, v) e same = inl (ap (λ p. (continue f p).1) e ∙ cc)

-- `commit` leaves the whole world as it is, source and store, unless it is admissible: the stored
-- manifest is prepared, HEAD and the files of the source are those of its baseline, the files of the
-- workspace are those prepared, the receipt is authentic and matches the manifest and the stored
-- trajectory, and the stored patch has the prepared digest.
pub commit-Admissible :
    {Tree : Type 0} (env : Env Tree) (id : String) (w : World Tree)
    → (commit env id w).1 ≡ w
      ⊎ ((m : Manifest) × (patch : String) × (load env id w ≡ (ok m, w))
          × Admissible env id m patch w)
unfolding commit
commit-Admissible env id w = elim (read-cases (load env id) _ w (ReadOnly-load env id)) [
  | inl same ↦ inl same
  | inr (m, loaded, e) ↦
      elim (read-cases (admit_commit env id m) _ w (ReadOnly-admit_commit env id m)) [
        | inl same ↦ inl (ap (λ p. p.1) e ∙ same)
        | inr (patch, admitted, _) ↦
            inr (m, patch, loaded, admit_commit-Admissible env id m w admitted)
      ]
]
