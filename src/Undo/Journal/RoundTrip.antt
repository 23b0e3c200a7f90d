-- ===== src/Undo/Journal/RoundTrip.antt =====
-- A journal that was written opens as the records that were written.
use mini_code_agent_langgrap.Prelude.{
  ◌≡◌, refl, sym, ap, subst, ℕ, suc, Bool, true, false, not, ◌&&◌, List, [], ◌∷◌, String, ok, ◌==◌,
  eq_refl, ltb, arith,
}
use mini_code_agent_langgrap.Prelude.Results.{>>=-eq-ok, raise_if-eq-ok}
use mini_code_agent_langgrap.Prelude.Json.{
  Json, obj, Items, nil, cons, Fields, get, get_default, null, truthy,
}
use mini_code_agent_langgrap.Prelude.JsonEquality.{json_eq}
use mini_code_agent_langgrap.Prelude.Library.{Library}
use mini_code_agent_langgrap.Receipt.{text_of}
use mini_code_agent_langgrap.Undo.{UndoRecord, Site}
use mini_code_agent_langgrap.Undo.Journal.{
  refuse_if, re_full_hash, path_binding, is_bound, dict_with_path, validate_record, validate_each,
  items_length, validate_records, record_json, records_json, journal_payload, journal_envelope,
  write_undo_journal, open_journal,
}

-- A record that validation leaves as it is.
record Normal (lib : Library) (site : Site) (r : UndoRecord) : Type 0 where
  resolved : site.resolve r.path ≡ ok r.path
  hashed : (r.existed_before && not (r.before_hash == lib.sha256_hex r.before_content)) ≡ false
  full : re_full_hash r.after_hash ≡ true
  bound : r.path_binding ≡ path_binding lib site r.path

ok-eq : {A : Type 0} {a b : A} → ok a ≡ ok b → a ≡ b
ok-eq h = cc

module _ (lib : Library) (site : Site)
    (stable : (p q : String) → site.resolve p ≡ ok q → site.resolve q ≡ ok q) where
  validate_record-Normal :
      (v : Json) {r : UndoRecord} → validate_record lib site v ≡ ok r → Normal lib site r
  unfolding validate_record
  validate_record-Normal v h =
      let (raw, _, h1) = >>=-eq-ok (dict_with_path v) _ h in
      let (path, resolved, h2) = >>=-eq-ok (site.resolve (text_of lib (get "path" raw))) _ h1 in
      let existed : Bool = truthy (get_default "existed_before" null raw) in
      let before : String = text_of lib (get "before_content" raw) in
      let (_, hashed, h3) =
        >>=-eq-ok
          (refuse_if (existed && not (text_of lib (get "before_hash" raw) == lib.sha256_hex before))
            _)
          _ h2 in
      let (_, full, h4) =
        >>=-eq-ok (refuse_if (not (re_full_hash (text_of lib (get "after_hash" raw)))) _) _ h3 in
      let (_, _, h5) =
        >>=-eq-ok
          (refuse_if (not (is_bound (path_binding lib site path) (get "path_binding" raw))) _) _
          h4 in
      subst (Normal lib site) (ok-eq h5) (record {
        resolved = stable (text_of lib (get "path" raw)) path resolved;
        hashed = raise_if-eq-ok _ _ _ hashed;
        full = not-false (raise_if-eq-ok _ _ _ full);
        bound = refl;
      })
    where
      not-false : {b : Bool} → not b ≡ false → b ≡ true
      not-false e = ground arith

  Normal-validate_record :
      (r : UndoRecord) → Normal lib site r → validate_record lib site (record_json r) ≡ ok r
  unfolding validate_record record_json
  Normal-validate_record r n =
      let same : (r.path_binding == path_binding lib site r.path) ≡ true =
        rw n.bound (eq_refl (path_binding lib site r.path)) in
      simp (n.resolved, n.hashed, n.full, same)
        (ap (λ b. ok (record r { path_binding = b })) (sym n.bound))

  validate_each-records_json :
      (records : Items) (rs : List UndoRecord)
      → validate_each lib site records ≡ ok rs
      → (validate_each lib site (records_json rs) ≡ ok rs)
        × (items_length (records_json rs) ≡ items_length records)
  unfolding validate_each records_json
  validate_each-records_json nil rs h =
      let nothing : [] ≡ rs = ok-eq h in rw (← nothing) (refl, refl)
  validate_each-records_json (cons v rest) rs h =
      let (r, one, h1) = >>=-eq-ok (validate_record lib site v) _ h in
      let (more, others, h2) = >>=-eq-ok (validate_each lib site rest) _ h1 in
      let all_records : r ∷ more ≡ rs = ok-eq h2 in
      let (again, size) = validate_each-records_json rest more others in
      let kept = Normal-validate_record r (validate_record-Normal v one) in
      subst
        (λ l.
          (validate_each lib site (records_json l) ≡ ok l)
          × (items_length (records_json l) ≡ suc (items_length rest)))
        all_records (rw (kept, again), ap suc size)

  -- A journal that `write_undo_journal` writes opens, under the same key and for the same trajectory
  -- and root, as the records that the validation of the given ones returned.
  pub open_journal-write_undo_journal :
      (key trajectory_path : String) (created_at_ns : ℕ) (records : Items) (name : String)
      (envelope : Fields)
      → site.absolute trajectory_path ≡ trajectory_path
      → site.absolute site.root ≡ site.root
      → write_undo_journal lib site key trajectory_path created_at_ns records ≡ ok (name, envelope)
      → (rs : List UndoRecord) × (validate_records lib site records ≡ ok rs)
        × (open_journal lib site key trajectory_path (obj envelope) ≡ ok rs)
  unfolding write_undo_journal
  open_journal-write_undo_journal key trajectory_path created_at_ns records name envelope at root
        h =
      let (rs, valid, h1) = >>=-eq-ok (validate_records lib site records) _ h in
      let written : journal_envelope lib key (journal_payload site trajectory_path created_at_ns rs)
          ≡ envelope =
        ap (λ p. p.1) (ok-eq h1) in
      (
        rs,
        valid,
        subst (λ e. open_journal lib site key trajectory_path (obj e) ≡ ok rs) written
            (opened rs (again rs valid)),
      )
    where
      again :
          (rs : List UndoRecord)
          → validate_records lib site records ≡ ok rs
          → validate_records lib site (records_json rs) ≡ ok rs
      again rs valid =
          unfold validate_records in
          let (_, few, each) = >>=-eq-ok (refuse_if (ltb 10000 (items_length records)) _) _ valid in
          let (kept, size) = validate_each-records_json records rs each in
          rw (size, raise_if-eq-ok _ _ _ few, kept)

      opened :
          (rs : List UndoRecord)
          → validate_records lib site (records_json rs) ≡ ok rs
          → open_journal lib site key trajectory_path (
              obj
                (journal_envelope lib key (journal_payload site trajectory_path created_at_ns rs)))
            ≡ ok rs
      opened rs kept =
          unfold open_journal in
          unfold journal_envelope in
          unfold journal_payload in unfold json_eq in simp (eq_refl, at, root, kept)
