-- ===== src/Undo/Guards.antt =====
-- What an undo that is not forced leaves alone.
use mini_code_agent_langgrap.Prelude.{
  ◌≡◌, refl, ◌∙◌, ap, true, false, List, [], ◌∷◌, ◌++◌, Option, none, String, Result, ok, err, ◌==◌,
  eq_iff, All, arith, Bool-cases, inl, inr,
}
use mini_code_agent_langgrap.Prelude.Results.{Result-cases}
use mini_code_agent_langgrap.Prelude.Library.{Library}
use mini_code_agent_langgrap.Undo.{
  UndoRecord, Contents, Site, Hashes, Rest, set_content, set_hash, path_hash, current_hash,
  expected_hash, restored, restore, write_path, hash_of, action_text, undo_round, undo_loop,
  undo_records, same_hash, reversed, no_hashes, prepend, after_write, is_undone, skip_text,
}
use mini_code_agent_langgrap.Undo.DryRun.{undo_round-true, undo_round-false}

-- The record `r`, if it is of the path `p`, does not have the hash `h`.
abbrev pub Refuses : Site → String → Option String → UndoRecord → Type 0
Refuses site p h r = site.resolve r.path ≡ ok p → same_hash h (expected_hash r) ≡ false

module _ (lib : Library) (site : Site) (p : String) (content : Option String) where
  -- What is left of the loop leaves the path `p` with `content`.
  Stays : Rest → Type 0
  Stays rest =
      (hashes : Hashes) (w : Contents)
      → hashes p ≡ none
      → w p ≡ content
      → (rest hashes w).1 p ≡ content

  prepend-Stays :
      (action : String) (q : Result (List String) × Contents)
      → q.1 p ≡ content
      → (prepend action q).1 p ≡ content
  prepend-Stays action (ok more, w) h = h
  prepend-Stays action (err e, w) h = h

  restore-other :
      (r : UndoRecord) (path : String) (w : Contents)
      → (path == p) ≡ false
      → (restore site false r path w).1 p ≡ w p
  unfolding restore write_path set_content
  restore-other r path w h = ground arith

  after_write-Stays :
      (q : Result (Unit {0}) × Contents) (k : Contents → Result (List String) × Contents)
      → q.1 p ≡ content
      → ((w : Contents) → w p ≡ content → (k w).1 p ≡ content)
      → (after_write q k).1 p ≡ content
  after_write-Stays (ok u, w) k h f = f w h
  after_write-Stays (err e, w) k h f = h

  undo_round-Stays :
      (rest : Rest)
      → Stays rest
      → (r : UndoRecord) (path : String) (hashes : Hashes) (w : Contents) → hashes p ≡ none
      → w p ≡ content
      → (path ≡ p → same_hash (hash_of lib content) (expected_hash r) ≡ false)
      → (undo_round lib site false false r hashes w rest path).1 p ≡ content
  unfolding Stays
  undo_round-Stays rest stays r path hashes w fresh same refuses =
      elim (Bool-cases (is_undone lib false r path hashes w)) [
        | inr e ↦
            ap (λ x. x.1 p) (undo_round-false lib site false false r hashes w rest path e)
            ∙ prepend-Stays (skip_text path) (rest hashes w) (stays hashes w fresh same)
        | inl e ↦
            let other : (path == p) ≡ false = not-own e in
            ap (λ x. x.1 p) (undo_round-true lib site false false r hashes w rest path e)
            ∙ after_write-Stays (restore site false r path w) _
                (restore-other r path w other ∙ same)
                (λ u kept.
                  prepend-Stays (action_text r path)
                    (rest (set_hash path (hash_of lib (restored r)) hashes) u)
                    (stays (set_hash path (hash_of lib (restored r)) hashes) u
                      (set_hash-other other) kept))
      ]
    where
      not-own : is_undone lib false r path hashes w ≡ true → (path == p) ≡ false
      not-own e =
          unfold is_undone in
          unfold current_hash in unfold path_hash in ground (arith, eq_iff path p, refuses)

      set_hash-other :
          (path == p) ≡ false → set_hash path (hash_of lib (restored r)) hashes p ≡ none
      set_hash-other other = unfold set_hash in ground arith

  undo_loop-Stays :
      (rs : List UndoRecord)
      → All (Refuses site p (hash_of lib content)) rs
      → Stays (undo_loop lib site false false rs)
  unfolding Stays undo_loop
  undo_loop-Stays [] refuses hashes w fresh same = same
  undo_loop-Stays (r ∷ rest) refuses hashes w fresh same =
      elim (Result-cases (site.resolve r.path)) [
        | inr (x, e) ↦ rw e same
        | inl (path, e) ↦ rw e (
            undo_round-Stays (undo_loop lib site false false rest) (undo_loop-Stays rest refuses.1)
              r path hashes w fresh same (λ own. refuses.0 (e ∙ ap ok own)))
      ]

All-snoc :
    {A : Type 0} (P : A → Type 0) (xs : List A) (x : A) → All P xs → P x → All P (xs ++ (x ∷ []))
All-snoc P [] x h k = (k, tt)
All-snoc P (y ∷ ys) x h k = (h.0, All-snoc P ys x h.1 k)

All-reversed : (P : UndoRecord → Type 0) (rs : List UndoRecord) → All P rs → All P (reversed rs)
All-reversed P [] h = tt
All-reversed P (r ∷ rs) h = All-snoc P (reversed rs) r (All-reversed P rs h.1) h.0

-- An undo that is not forced leaves a file as it is, whether it returns or raises, when no record of
-- its path expects the hash that the file has.
pub undo_records-Refuses :
    (lib : Library) (site : Site) (records : List UndoRecord) (w : Contents) (p : String)
    → All (Refuses site p (path_hash lib w p)) records
    → (undo_records lib site false false records w).1 p ≡ w p
unfolding undo_records
undo_records-Refuses lib site records w p refuses =
    unfold Stays in
    undo_loop-Stays lib site p (w p) (reversed records)
      (All-reversed _ records (unfold path_hash in refuses)) no_hashes w refl refl
