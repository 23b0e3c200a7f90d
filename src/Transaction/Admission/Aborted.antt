-- ===== src/Transaction/Admission/Aborted.antt =====
-- What holds when `abort` returns.
use mini_code_agent_langgrap.Prelude.{
  ◌≡◌, sym, ◌∙◌, ap, subst, false, none, some, String, ok, arith, Option-cases, inl, inr,
}
use mini_code_agent_langgrap.Manifest.{Manifest, Status, aborted}
use mini_code_agent_langgrap.Transaction.Store.{
  World, Env, raise_if, directory, read_file, read_clock, load, save, remove_workspace,
}
use mini_code_agent_langgrap.Transaction.Commit.{is_committed, is_aborted, mark_aborted, abort}
use mini_code_agent_langgrap.Transaction.Rules.{>>=-eq-ok, load-id, if-eq-ok, raise_if-eq-false}
use mini_code_agent_langgrap.Transaction.Reads.{ReadOnly-raise_if, ReadOnly-load, read-eq-ok}
use mini_code_agent_langgrap.Transaction.Admission.Committed.{
  stored_manifest, save-stored, remove_workspace-manifest, load-status,
}

abbrev HasStatus : {Tree : Type 0} → String → Status → World Tree → Type 0
HasStatus id s w = (n : Manifest) × (stored_manifest id w ≡ some n) × (n.status ≡ s)

module _ {Tree : Type 0} (env : Env Tree) (id : String) where
  load-none :
      {A : Type 0} (w : World Tree) {m : Manifest}
      → load env id w ≡ (ok m, w)
      → stored_manifest id w ≡ none
      → A
  unfolding load directory read_file
  load-none w h e = ground arith

  load-HasStatus :
      (w : World Tree) {m : Manifest} → load env id w ≡ (ok m, w) → HasStatus id m.status w
  load-HasStatus w {m = m} h = elim (Option-cases (stored_manifest id w)) [
    | inl e ↦ load-none w h e
    | inr (n, e) ↦ (n, e, sym (load-status env id w h e))
  ]

  mark_aborted-HasStatus :
      (m : Manifest) (w : World Tree) {u : Unit {0}} {w' : World Tree}
      → m.id ≡ id
      → load env id w ≡ (ok m, w)
      → mark_aborted env m w ≡ (ok u, w')
      → HasStatus id aborted w'
  unfolding mark_aborted
  mark_aborted-HasStatus m w {w' = w'} own loaded h =
      if-eq-ok (is_aborted m.status) _ _ w h
        (λ done same.
          subst (HasStatus id aborted) (ap (λ p. p.1) same)
            (subst (λ s. HasStatus id s w) (ground arith) (load-HasStatus w loaded)))
        (λ _ h1.
          let (now, v, _, h2) = >>=-eq-ok (read_clock env) _ w h1 in
          let (n, v1, saved, h3) =
            >>=-eq-ok (save env (record m { status = aborted; aborted_at_ns = some now })) _ v h2 in
          let (stored, status) =
            save-stored env (record m { status = aborted; aborted_at_ns = some now }) v saved in
          subst (HasStatus id aborted) (ap (λ p. p.1) h3)
            (n, subst (λ i. stored_manifest i v1 ≡ some n) own stored, status))

-- `abort` returns only for a transaction that was not committed, and the manifest that it returns is
-- aborted, whatever the status was before.
pub abort-aborted :
    {Tree : Type 0} (env : Env Tree) (id : String) (w : World Tree) (m' : Manifest)
    (w' : World Tree)
    → abort env id w ≡ (ok m', w')
    → (m'.status ≡ aborted)
      × (m : Manifest) × (load env id w ≡ (ok m, w))
      × (is_committed m.status ≡ false)
unfolding abort
abort-aborted env id w m' w' h =
    let (m, loaded, h1) = read-eq-ok (load env id) _ w (ReadOnly-load env id) h in
    let (_, live, h2) =
      read-eq-ok (raise_if (is_committed m.status) _) _ w (ReadOnly-raise_if _ _) h1 in
    let (_, v1, marked, h3) = >>=-eq-ok (mark_aborted env m) _ w h2 in
    let (_, v2, removed, h4) = >>=-eq-ok (remove_workspace env id) _ v1 h3 in
    let own : m.id ≡ id = load-id env id w (ap (λ p. p.0) loaded) in
    let (n, stored, status) = mark_aborted-HasStatus env id m w own loaded marked in
    let kept : stored_manifest id v2 ≡ some n =
      sym (ap (λ p. stored_manifest id p.1) removed)
      ∙ remove_workspace-manifest env id v1
      ∙ stored in
    (
      load-status env id v2 h4 kept ∙ status,
      m,
      loaded,
      raise_if-eq-false (is_committed m.status) _ w live,
    )
