-- ===== src/Transaction/Admission/Validated.antt =====
-- What `validated_patch` returns.
use mini_code_agent_langgrap.Prelude.{
  ◌≡◌, ap, subst, ◌||◌, Bool, true, false, not, String, ok, ◌==◌, eq_iff, is_empty, arith,
}
use mini_code_agent_langgrap.Prelude.Json.{Fields, equals_str}
use mini_code_agent_langgrap.Manifest.{Manifest}
use mini_code_agent_langgrap.Transaction.Store.{World, Env, raise_if, directory, read_file, load}
use mini_code_agent_langgrap.Transaction.Commit.{
  is_prepared, is_committed, validated_receipt_for_manifest, validated_patch, patch_digest,
}
use mini_code_agent_langgrap.Transaction.Rules.{>>=-eq-ok, raise_if-eq-ok, raise_if-eq-false}
use mini_code_agent_langgrap.Transaction.Reads.{ReadOnly-raise_if, ReadOnly-load, read-eq-ok}
use mini_code_agent_langgrap.Transaction.Admission.{Receipted, matching_receipt-ok}

module _ {Tree : Type 0} (env : Env Tree) (id : String) where
  validated_receipt-ok :
      (m : Manifest) (w : World Tree) {r : Fields} {w' : World Tree}
      → validated_receipt_for_manifest env id m w ≡ (ok r, w')
      → ((is_prepared m.status || is_committed m.status) ≡ true) × Receipted env id m w
  unfolding validated_receipt_for_manifest
  validated_receipt-ok m w h =
      let (_, admissible, h1) =
        read-eq-ok (raise_if (not (is_prepared m.status || is_committed m.status)) _) _ w
          (ReadOnly-raise_if _ _) h in
      let (_, _, h2) =
        read-eq-ok (raise_if (is_empty m.receipt_id) _) _ w (ReadOnly-raise_if _ _) h1 in
      (
        raise_if-eq-ok (is_prepared m.status || is_committed m.status) _ w admissible,
        matching_receipt-ok env id m w h2,
      )

same-digest : (a b : Bool) → (not a || not b) ≡ false → a ≡ true
same-digest a b h = ground arith

ok-eq : {a b : String} → ok a ≡ ok b → a ≡ b
ok-eq h = cc

-- A patch that `validated_patch` returns belongs to a transaction whose stored manifest is prepared or
-- committed, whose receipt is authentic and matches the manifest and the stored trajectory, and the
-- patch has the digest that the manifest records.
pub validated_patch-Receipted :
    {Tree : Type 0} (env : Env Tree) (id : String) (w : World Tree) (patch : String)
    → (validated_patch env id w).0 ≡ ok patch
    → (m : Manifest) × (load env id w ≡ (ok m, w))
      × ((is_prepared m.status || is_committed m.status) ≡ true)
      × Receipted env id m w
      × (env.library.sha256_hex patch ≡ m.prepared_patch_sha256)
unfolding validated_patch
validated_patch-Receipted env id w patch h =
    let (m, loaded, h1) =
      read-eq-ok (load env id) _ w (ReadOnly-load env id)
        (ap (λ r. (r, (validated_patch env id w).1)) h) in
    let (r, v, receipt, h2) = >>=-eq-ok (validated_receipt_for_manifest env id m) _ w h1 in
    let (d, v1, _, h3) = >>=-eq-ok (directory id) _ v h2 in
    let (text, v2, _, h4) = >>=-eq-ok (read_file "prepared patch" d.patch) _ v1 h3 in
    let digest : String = env.library.sha256_hex text in
    let (_, v3, same, h5) =
      >>=-eq-ok
        (raise_if
          (not (digest == m.prepared_patch_sha256) || not (equals_str digest (patch_digest env r)))
          _)
        _ v2 h4 in
    let text_eq : text ≡ patch = ok-eq (ap (λ p. p.0) h5) in
    let (admissible, receipted) = validated_receipt-ok env id m w receipt in
    (
      m,
      loaded,
      admissible,
      receipted,
      subst (λ t. env.library.sha256_hex t ≡ m.prepared_patch_sha256) text_eq
          ((eq_iff digest m.prepared_patch_sha256).0
            (same-digest _ _ (raise_if-eq-false _ _ v2 same))),
    )
