-- ===== src/Undo/Restores.antt =====
-- An undo of recorded edits goes back to the files before them.
use mini_code_agent_langgrap.Prelude.{
  ◌≡◌, refl, sym, ◌∙◌, ap, true, false, List, [], ◌∷◌, ◌++◌, Option, none, some, String, ok, ◌==◌,
  eq_iff, eq_refl, is_empty, arith, if◌then◌else◌,
}
use mini_code_agent_langgrap.Prelude.Library.{Library}
use mini_code_agent_langgrap.Undo.{
  UndoRecord, Contents, Site, Hashes, Rest, set_content, set_hash, path_hash, current_hash,
  expected_hash, restored, restore, write_path, hash_of, action_text, undo_round, undo_loop,
  undo_records, same_hash, reversed, no_hashes, prepend, after_write, is_undone,
}
use mini_code_agent_langgrap.Undo.DryRun.{undo_round-true, restore-content}

-- `r` is the record of an edit that gives the file at `path` the content `text`, in the files `w`.
pub record Records (lib : Library) (site : Site) (w : Contents) (path text : String)
    (r : UndoRecord) : Type 0 where
  pub resolved : site.resolve r.path ≡ ok path
  pub old : w path ≡ (if r.existed_before then some r.before_content else none)
  pub hash : r.after_hash ≡ lib.sha256_hex text

-- Edits made one after the other, with their records.
pub data Edits (lib : Library) (site : Site) (start : Contents)
    : List UndoRecord → Contents → Type 0 where
  unedited : Edits lib site start [] start
  edit :
      (rs : List UndoRecord) (w : Contents) (path text : String) (r : UndoRecord)
      → Edits lib site start rs w
      → Records lib site w path text r
      → Edits lib site start (rs ++ (r ∷ [])) (set_content path (some text) w)

reversed-snoc :
    (rs : List UndoRecord) (r : UndoRecord) → reversed (rs ++ (r ∷ [])) ≡ r ∷ reversed rs
reversed-snoc [] r = refl
reversed-snoc (x ∷ xs) r = ap (λ l. l ++ (x ∷ [])) (reversed-snoc xs r)

module _ (lib : Library) (site : Site) (start : Contents)
    (writable : (path : String) → site.write_error path ≡ none)
    (digests : (text : String) → is_empty (lib.sha256_hex text) ≡ false) where
  -- The hashes of the loop are those of the files.
  Accurate : Hashes → Contents → Type 0
  Accurate hashes w = (q : String) → current_hash lib hashes w q ≡ hash_of lib (w q)

  -- The loop comes back to the start.
  Returns : Rest → Contents → Type 0
  Returns rest v =
      (hashes : Hashes) (w : Contents)
      → Accurate hashes w
      → ((q : String) → w q ≡ v q)
      → (actions : List String) × (w' : Contents) × (rest hashes w ≡ (ok actions, w'))
        × ((q : String) → w' q ≡ start q)

  same_hash_refl : (h : Option String) → same_hash h h ≡ true
  same_hash_refl none = refl
  same_hash_refl (some t) = eq_refl t

  restore-ok :
      (r : UndoRecord) (path : String) (w : Contents) → (restore site false r path w).0 ≡ ok tt
  unfolding restore write_path
  restore-ok r path w = let can = writable path in ground arith

  Accurate-step :
      (r : UndoRecord) (path : String) (hashes : Hashes) (w w' : Contents) {u : Unit {0}}
      → Accurate hashes w
      → restore site false r path w ≡ (ok u, w')
      → Accurate (set_hash path (hash_of lib (restored r)) hashes) w'
  unfolding Accurate current_hash set_hash path_hash
  Accurate-step r path hashes w w' accurate h q =
      let content = restore-content site r path w w' h q in let before = accurate q in ground arith

  is_undone-edit :
      (r : UndoRecord) (path text : String) (hashes : Hashes) (w v : Contents)
      → Accurate hashes w
      → ((q : String) → w q ≡ set_content path (some text) v q)
      → Records lib site v path text r
      → is_undone lib false r path hashes w ≡ true
  unfolding Accurate is_undone expected_hash set_content
  is_undone-edit r path text hashes w v accurate same recorded =
      let current = accurate path in
      let content = same path in
      let own = eq_refl path in
      let some_text : w path ≡ some text = ground arith in
      let nonempty = digests text in
      let hash = recorded.hash in let equal = eq_refl r.after_hash in ground arith

  undo_round-Returns :
      (rest : Rest) (v : Contents)
      → Returns rest v
      → (r : UndoRecord) (path text : String) → Records lib site v path text r
      → Returns
          (λ hashes w. undo_round lib site false false r hashes w rest path)
          (set_content path (some text) v)
  unfolding Returns
  undo_round-Returns rest v returns r path text recorded hashes w accurate same =
      let w' : Contents = (restore site false r path w).1 in
      let written : restore site false r path w ≡ (ok tt, w') =
        ap (λ x. (x, w')) (restore-ok r path w) in
      let back : (q : String) → w' q ≡ v q =
        λ q. back_at q (restore-content site r path w w' written q) (same q) in
      let hashes' : Hashes = set_hash path (hash_of lib (restored r)) hashes in
      let (actions, w2, run, home) =
        returns hashes' w' (Accurate-step r path hashes w w' accurate written) back in
      (
        action_text r path ∷ actions,
        w2,
        undo_round-true lib site false false r hashes w rest path
              (is_undone-edit r path text hashes w v accurate same recorded)
            ∙ ap (λ x. after_write x (λ u. prepend (action_text r path) (rest hashes' u))) written
            ∙ ap (prepend (action_text r path)) run,
        home,
      )
    where
      back_at :
          (q : String) {c : Option String}
          → c ≡ (if path == q then restored r else w q)
          → w q ≡ set_content path (some text) v q
          → c ≡ v q
      back_at q e s =
          let old : restored r ≡ v path = unfold restored in sym recorded.old in
          unfold set_content in ground (arith, eq_iff path q)

  undo_loop-Returns :
      (rs : List UndoRecord) (v : Contents)
      → Edits lib site start rs v
      → Returns (undo_loop lib site false false (reversed rs)) v
  unfolding Returns undo_loop
  undo_loop-Returns _ _ unedited hashes w accurate same = ([], w, refl, same)
  undo_loop-Returns _ _ (edit rs v path text r before recorded) hashes w accurate same =
      let round =
        undo_round-Returns (undo_loop lib site false false (reversed rs)) v
          (undo_loop-Returns rs v before) r path text recorded hashes w accurate same in
      rw (reversed-snoc rs r, recorded.resolved) round

-- After edits that were recorded in order, where writes succeed, an undo that is not forced returns,
-- and every file has the content that it had before the first of them.
pub undo_records-Edits :
    (lib : Library) (site : Site) (start : Contents) (records : List UndoRecord) (w : Contents)
    → ((path : String) → site.write_error path ≡ none)
    → ((text : String) → is_empty (lib.sha256_hex text) ≡ false)
    → Edits lib site start records w
    → (actions : List String) × (w' : Contents) × (undo_records lib site false false records w
        ≡ (ok actions, w'))
      × ((q : String) → w' q ≡ start q)
unfolding undo_records
undo_records-Edits lib site start records w writable digests edits =
    unfold Returns in
    unfold Accurate in
    undo_loop-Returns lib site start writable digests records w edits no_hashes w
      (λ q. unfold current_hash in unfold path_hash in ground arith) (λ q. refl)
