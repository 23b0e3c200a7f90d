-- ===== src/Undo/DryRun.antt =====
-- A dry run of an undo tells what the undo does.
use mini_code_agent_langgrap.Prelude.{
  ◌≡◌, refl, sym, ◌∙◌, ap, Bool, true, false, ◌||◌, List, [], ◌∷◌, String, Result, ok, err, ◌==◌,
  eq_iff, arith, Bool-cases, inl, inr, if◌then◌else◌,
}
use mini_code_agent_langgrap.Prelude.Results.{Result-cases}
use mini_code_agent_langgrap.Prelude.Library.{Library}
use mini_code_agent_langgrap.Undo.{
  UndoRecord, Contents, Site, Hashes, set_content, set_hash, path_hash, current_hash, expected_hash,
  restored, restore, write_path, hash_of, action_text, undo_loop, undo_records, same_hash, reversed,
  no_hashes, is_undone, skip_text, Rest, undo_round, prepend, after_write,
}

-- The content of every path after a record is restored.
pub restore-content :
    (site : Site) (r : UndoRecord) (path : String) (w w' : Contents) {u : Unit {0}}
    → restore site false r path w ≡ (ok u, w')
    → (q : String) → w' q ≡ (if path == q then restored r else w q)
unfolding restore write_path set_content
restore-content site r path w w' h q =
    let at : (restore site false r path w).1 q ≡ w' q = ap (λ p. p.1 q) h in
    ground (arith, eq_iff path q)

-- A round, by whether its record is undone.
module _ (lib : Library) (site : Site) (dry_run force : Bool) (r : UndoRecord) (hashes : Hashes)
    (w : Contents) (rest : Rest) (path : String) where
  pub undo_round-true :
      is_undone lib force r path hashes w ≡ true
      → undo_round lib site dry_run force r hashes w rest path
        ≡ after_write (restore site dry_run r path w) (λ u.
          prepend (action_text r path) (rest (set_hash path (hash_of lib (restored r)) hashes) u))
  unfolding undo_round
  undo_round-true e = ground arith

  pub undo_round-false :
      is_undone lib force r path hashes w ≡ false
      → undo_round lib site dry_run force r hashes w rest path
        ≡ prepend (skip_text path) (rest hashes w)
  unfolding undo_round
  undo_round-false e = ground arith

-- The hashes that the loop sees in two workspaces.
abbrev Agree : Library → Hashes → Contents → Contents → Type 0
Agree lib hashes w v = (q : String) → current_hash lib hashes w q ≡ current_hash lib hashes v q

ok-eq : {A : Type 0} {a b : A} → ok a ≡ ok b → a ≡ b
ok-eq h = cc

module _ (lib : Library) (site : Site) (force : Bool) where
  is_undone-Agree :
      (r : UndoRecord) (path : String) (hashes : Hashes) (w v : Contents)
      → Agree lib hashes w v
      → is_undone lib force r path hashes w ≡ is_undone lib force r path hashes v
  unfolding is_undone
  is_undone-Agree r path hashes w v same =
      ap (λ c. force || same_hash c (expected_hash r)) (same path)

  Agree-step :
      (r : UndoRecord) (path : String) (hashes : Hashes) (w v v' : Contents) {u : Unit {0}}
      → Agree lib hashes w v
      → restore site false r path v ≡ (ok u, v')
      → Agree lib (set_hash path (hash_of lib (restored r)) hashes) w v'
  unfolding current_hash set_hash path_hash
  Agree-step r path hashes w v v' same h q =
      let content = restore-content site r path v v' h q in let before = same q in ground arith

  prepend-ok :
      (action : String) (p : Result (List String) × Contents) {actions : List String} {v : Contents}
      → prepend action p ≡ (ok actions, v)
      → (more : List String) × (p ≡ (ok more, v)) × (action ∷ more ≡ actions)
  prepend-ok action (ok more, u) h = (more, ap (λ x. (ok more, x.1)) h, ok-eq (ap (λ x. x.0) h))
  prepend-ok action (err e, u) h = cc

  -- `told` tells what `rest` does, from workspaces that agree.
  Tells : Rest → Rest → Type 0
  Tells told rest =
      (hashes : Hashes) (w v : Contents) (actions : List String) (v' : Contents)
      → Agree lib hashes w v
      → rest hashes v ≡ (ok actions, v')
      → told hashes w ≡ (ok actions, w)

  after_write-ok :
      (r : UndoRecord) (hashes : Hashes) (path : String) (rest : Rest)
      (p : Result (Unit {0}) × Contents) {actions : List String} {v' : Contents}
      → after_write p (λ u.
        prepend (action_text r path) (rest (set_hash path (hash_of lib (restored r)) hashes) u))
        ≡ (ok actions, v')
      → (u : Contents) × (p ≡ (ok tt, u))
        × (prepend (action_text r path) (rest (set_hash path (hash_of lib (restored r)) hashes) u)
            ≡ (ok actions, v'))
  after_write-ok r hashes path rest (ok tt, u) e = (u, refl, e)
  after_write-ok r hashes path rest (err x, u) e = cc

  undo_round-dry :
      (told rest : Rest)
      → Tells told rest
      → (r : UndoRecord) (path : String) (hashes : Hashes) (w v : Contents) (actions : List String)
        (v' : Contents)
      → Agree lib hashes w v
      → undo_round lib site false force r hashes v rest path ≡ (ok actions, v')
      → undo_round lib site true force r hashes w told path ≡ (ok actions, w)
  unfolding Tells restore
  undo_round-dry told rest tells r path hashes w v actions v' same h =
      elim (Bool-cases (is_undone lib force r path hashes v)) [
        | inl e ↦
            let e' : is_undone lib force r path hashes w ≡ true =
              is_undone-Agree r path hashes w v same ∙ e in
            let h1 = sym (undo_round-true lib site false force r hashes v rest path e) ∙ h in
            let (u, written, h2) =
              after_write-ok r hashes path rest (restore site false r path v) h1 in
            let (more, run, all) =
              prepend-ok (action_text r path)
                (rest (set_hash path (hash_of lib (restored r)) hashes) u) h2 in
            let dry =
              tells (set_hash path (hash_of lib (restored r)) hashes) w u more v'
                (Agree-step r path hashes w v u same written) run in
            undo_round-true lib site true force r hashes w told path e'
            ∙ ap (prepend (action_text r path)) dry
            ∙ ap (λ x. (ok x, w)) all
        | inr e ↦
            let e' : is_undone lib force r path hashes w ≡ false =
              is_undone-Agree r path hashes w v same ∙ e in
            let h1 = sym (undo_round-false lib site false force r hashes v rest path e) ∙ h in
            let (more, run, all) = prepend-ok (skip_text path) (rest hashes v) h1 in
            undo_round-false lib site true force r hashes w told path e'
            ∙ ap (prepend (skip_text path)) (tells hashes w v more v' same run)
            ∙ ap (λ x. (ok x, w)) all
      ]

  undo_loop-Tells :
      (rs : List UndoRecord)
      → Tells (undo_loop lib site true force rs) (undo_loop lib site false force rs)
  unfolding undo_loop Tells
  undo_loop-Tells [] hashes w v actions v' same h = ap (λ p. (p.0, w)) h
  undo_loop-Tells (r ∷ rest) hashes w v actions v' same h =
      elim (Result-cases (site.resolve r.path)) [
        | inl (path, e) ↦ rw e (
            undo_round-dry (undo_loop lib site true force rest)
              (undo_loop lib site false force rest) (undo_loop-Tells rest) r path hashes w v actions
              v' same (rw e at h))
        | inr (x, e) ↦ cc
      ]

-- A dry run leaves every file as it is, and it returns the actions of the undo, whenever the undo
-- returns.
pub undo_records-dry :
    (lib : Library) (site : Site) (force : Bool) (records : List UndoRecord) (w : Contents)
    (actions : List String) (w' : Contents)
    → undo_records lib site false force records w ≡ (ok actions, w')
    → undo_records lib site true force records w ≡ (ok actions, w)
unfolding undo_records
undo_records-dry lib site force records w actions w' h =
    unfold Tells in
    undo_loop-Tells lib site force (reversed records) no_hashes w w actions w' (λ q. refl) h
