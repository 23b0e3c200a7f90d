-- ===== src/Transaction/Commit.antt =====
-- `TransactionStore.commit`, `abort`, `receipt`, `validated_receipt` and `validated_patch` of
-- src/mini_code_agent/transaction.py.
use mini_code_agent_langgrap.Prelude.{
  Bool, true, false, not, ◌||◌, [], ◌∷◌, none, some, String, ok, ◌==◌, is_empty, concat,
  if◌then◌else◌,
}
use mini_code_agent_langgrap.Prelude.Json.{Json, null, Fields, get_default, get_in, equals_str}
use mini_code_agent_langgrap.Manifest.{Manifest, Status, prepared, committed, aborted}
use mini_code_agent_langgrap.Workspace.{fingerprint}
use mini_code_agent_langgrap.Receipt.{load_receipt, validate_receipt, payload_of}
use mini_code_agent_langgrap.Transaction.Store.{
  Env, Action, pure, lift, raise, raise_if, ◌>>=◌, ◌>>◌, directory, read_file, read_clock, load,
  save, workspace_of, remove_workspace,
}
use mini_code_agent_langgrap.Transaction.Prepare.{status_text}

abbrev pub is_prepared : Status → Bool
is_prepared prepared = true
is_prepared _ = false

abbrev pub is_committed : Status → Bool
is_committed committed = true
is_committed _ = false

abbrev pub is_aborted : Status → Bool
is_aborted aborted = true
is_aborted _ = false

module _ {Tree : Type 0} (env : Env Tree) where
  -- `load_receipt` on the files of the directory and of the store's root.
  unfoldable pub stored_receipt : String → Action Tree Fields
  stored_receipt id = directory id >>= λ d w. (load_receipt env.library d.receipt w.key_file id, w)

  abbrev pub has_receipt_id : Fields → String → Bool
  has_receipt_id receipt id = equals_str id (get_default "receipt_id" null receipt)

  -- The trajectory and the receipt, which must match the manifest.
  unfoldable pub matching_receipt : String → Manifest → Action Tree Fields
  unfolding stored_receipt
  matching_receipt id m = do
    d ← directory id
    trajectory ← read_file "transaction trajectory" d.trajectory
    receipt ← stored_receipt id
    raise_if (not (has_receipt_id receipt m.receipt_id))
        "transaction receipt id does not match manifest"
    lift (validate_receipt env.library (payload_of receipt) m trajectory)
    pure receipt

  -- `git apply --check` and `git apply` on the source, unless the patch is empty.
  unfoldable pub apply_patch : String → Action Tree (Unit {0})
  apply_patch patch w =
      if is_empty patch then (ok tt, w) else elim (env.apply_check patch w.source) [
        | some detail ↦
            raise "TransactionError"
              (if is_empty detail then "prepared patch no longer applies" else detail) w
        | none ↦ let (r, source) = env.apply patch w.source in (r, record w { source = source })
      ]

  -- The tests of `commit` that come before the receipt: the source and the prepared workspace are
  -- as they were.
  unfoldable pub check_unchanged : String → Manifest → Action Tree (Unit {0})
  check_unchanged id m w =
      (do
        tree ← workspace_of id
        head ← lift (env.head w.source)
        raise_if (not (head == m.baseline_commit))
            "source HEAD changed since transaction begin; aborting"
        current_source ← lift (env.capture w.source)
        raise_if (not (fingerprint env.library current_source == m.baseline_fingerprint))
            "source workspace changed since transaction begin; aborting"
        prepared_files ← lift (env.capture tree)
        raise_if (not (fingerprint env.library prepared_files == m.prepared_fingerprint))
            "prepared workspace changed after verification; aborting")
        w

  -- The prepared patch, whose digest must be that of the manifest.
  unfoldable pub checked_patch : String → Manifest → Action Tree String
  checked_patch id m = do
    d ← directory id
    patch ← read_file "prepared patch" d.patch
    raise_if (not (env.library.sha256_hex patch == m.prepared_patch_sha256))
        "prepared patch integrity check failed"
    pure patch

  -- `_content_snapshot(source)` after the patch.
  unfoldable pub check_committed : Manifest → Action Tree (Unit {0})
  check_committed m w =
      (do
        content ← lift (env.capture_content w.source)
        raise_if (not (fingerprint env.library content == m.prepared_source_fingerprint))
            "committed workspace does not match prepared state")
        w

  -- The tests of `commit` before it writes to the source; the patch to apply.
  unfoldable pub admit_commit : String → Manifest → Action Tree String
  unfolding check_unchanged matching_receipt checked_patch
  admit_commit id m = do
    raise_if (not (is_prepared m.status))
        (concat ("cannot commit transaction in " ∷ status_text m.status ∷ " state" ∷ []))
    check_unchanged id m
    matching_receipt id m
    checked_patch id m

  -- The writes of `commit` under the lock.
  unfoldable pub perform_commit : Manifest → String → Action Tree Manifest
  unfolding apply_patch check_committed
  perform_commit m patch = do
    apply_patch patch
    check_committed m
    now ← read_clock env
    save env (record m { status = committed; committed_at_ns = some now })

  unfoldable pub commit : String → Action Tree Manifest
  unfolding admit_commit perform_commit
  commit id = do
    m ← load env id
    patch ← admit_commit id m
    perform_commit m patch
    remove_workspace env id
    load env id

  unfoldable pub mark_aborted : Manifest → Action Tree (Unit {0})
  mark_aborted m = if is_aborted m.status then pure tt else (do
    now ← read_clock env
    save env (record m { status = aborted; aborted_at_ns = some now })
    pure tt)

  unfoldable pub abort : String → Action Tree Manifest
  unfolding mark_aborted
  abort id = do
    m ← load env id
    raise_if (is_committed m.status) "a committed transaction cannot be aborted"
    mark_aborted m
    remove_workspace env id
    load env id

  -- `TransactionStore.receipt`
  unfoldable pub receipt : String → Action Tree Fields
  receipt id = do
    m ← load env id
    raise_if (is_empty m.receipt_id) "transaction has no prepared receipt"
    r ← stored_receipt id
    raise_if (not (has_receipt_id r m.receipt_id)) "transaction receipt id does not match manifest"
    pure r

  -- `_validated_receipt_for_manifest`
  unfoldable pub validated_receipt_for_manifest : String → Manifest → Action Tree Fields
  unfolding matching_receipt
  validated_receipt_for_manifest id m = do
    raise_if (not (is_prepared m.status || is_committed m.status)) (
        concat ("transaction receipt is not admissible in " ∷ status_text m.status ∷ " state" ∷ []))
    raise_if (is_empty m.receipt_id) "transaction has no prepared receipt"
    matching_receipt id m

  unfoldable pub validated_receipt : String → Action Tree Fields
  unfolding validated_receipt_for_manifest
  validated_receipt id = do m ← load env id; validated_receipt_for_manifest id m

  abbrev pub patch_digest : Fields → Json
  patch_digest r = elim (get_in "patch_sha256" (get_default "prepared" null (payload_of r))) [
    | none ↦ null
    | some v ↦ v
  ]

  unfoldable pub validated_patch : String → Action Tree String
  unfolding validated_receipt_for_manifest
  validated_patch id = do
    m ← load env id
    r ← validated_receipt_for_manifest id m
    d ← directory id
    patch ← read_file "prepared patch" d.patch
    let digest : String = env.library.sha256_hex patch
    raise_if (not (digest == m.prepared_patch_sha256) || not (equals_str digest (patch_digest r)))
        "prepared patch does not match authenticated state"
    pure patch
