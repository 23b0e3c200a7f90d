-- ===== src/Transaction/Create/Rollback.antt =====
-- What `create` leaves when it raises.
use mini_code_agent_langgrap.Prelude.{
  ◌≡◌, refl, sym, ◌∙◌, ap, subst, Bool, true, false, not, ◌||◌, ◌⊎◌, inl, inr, none, some,
  Option-cases, String, Result, ok, err, Exception, ◌==◌, eq_refl, arith, if◌then◌else◌,
}
use mini_code_agent_langgrap.Manifest.{Manifest}
use mini_code_agent_langgrap.Workspace.{Files, fingerprint}
use mini_code_agent_langgrap.Transaction.Store.{
  Directory, World, Env, Action, update_directory, lift, raise_if, continue, ◌>>=◌, read_clock,
  replace_directory,
}
use mini_code_agent_langgrap.Transaction.Reads.{
  ReadOnly, ReadOnly-lift, ReadOnly-raise_if, ReadOnly-bind,
}
use mini_code_agent_langgrap.Transaction.Create.{
  Begin, raise_named, make_directory, add_worktree, remove_tree, left_by_git, after_discard,
  discard, raise_again, discard_unless, new_manifest, admit_source, write_or_discard, create,
}

abbrev IsAbsent : {Tree : Type 0} → String → World Tree → Type 0
IsAbsent id w = w.directories id ≡ none

abbrev Anywhere : {Tree : Type 0} → World Tree → Type 0
Anywhere w = Unit {0}

-- What is left of the directory when `e` is raised: nothing, or what `rmtree` left of one; or `e` is
-- the exception that Git's removal raised.
abbrev pub Gone : {Tree : Type 0} → Begin Tree → Exception → World Tree → Type 0
Gone {Tree} begin e w =
    ((w.directories begin.fresh_id ≡ none)
      ⊎ ((d : Directory Tree) × (left : Directory Tree) × (begin.rmtree d ≡ some left)
          × (w.directories begin.fresh_id ≡ some left)))
    ⊎ ((source : Tree) × ((begin.worktree_discard source).0 ≡ err e))

-- From a world of `Q`, the directory is gone when `m` raises.
record Undone {Tree A : Type 0} (begin : Begin Tree) (Q : World Tree → Type 0) (m : Action Tree A)
    : Type 0 where
  at : (w : World Tree) → Q w → (e : Exception) → (m w).0 ≡ err e → Gone begin e (m w).1

module _ {Tree A B : Type 0} {begin : Begin Tree} where
  Undone-bind :
      (m : Action Tree A) (f : A → Action Tree B) (Q R : World Tree → Type 0)
      → Undone begin Q m
      → ((w : World Tree) → Q w → R (m w).1)
      → ((a : A) → Undone begin R (f a))
      → Undone begin Q (m >>= f)
  Undone-bind m f Q R um r uf = record { at = λ w q e h. go (m w) (um.at w q) (r w q) e h }
    where
      go :
          (p : Result A × World Tree)
          → ((e : Exception) → p.0 ≡ err e → Gone begin e p.1)
          → R p.1
          → (e : Exception) → (continue f p).0 ≡ err e
          → Gone begin e (continue f p).1
      go (ok a, v) u r e h = (uf a).at v r e h
      go (err x, v) u r e h = u e (ap err (same h))
        where
          same : ◌≡◌ {A = Result B} (err x) (err e) → x ≡ e
          same h = cc

  -- A step that only reads, before the directory exists.
  Undone-read :
      (m : Action Tree A) (f : A → Action Tree B)
      → ReadOnly m
      → ((a : A) → Undone begin (IsAbsent begin.fresh_id) (f a))
      → Undone begin (IsAbsent begin.fresh_id) (m >>= f)
  Undone-read m f r uf =
      Undone-bind m f (IsAbsent begin.fresh_id) (IsAbsent begin.fresh_id)
        (record {
          at = λ w absent e h. inl (inl (subst (IsAbsent begin.fresh_id) (r.world w) absent));
        })
        (λ w absent. subst (IsAbsent begin.fresh_id) (r.world w) absent) uf

module _ {Tree : Type 0} (begin : Begin Tree) (env : Env Tree) where
  remove_tree-Gone : (e : Exception) (w : World Tree) → Gone begin e (remove_tree begin w)
  unfolding remove_tree replace_directory
  remove_tree-Gone e w = elim (Option-cases (w.directories begin.fresh_id)) [
    | inl absent ↦ rw (remove_tree, absent) (inl (inl absent))
    | inr (d, present) ↦
        rw (remove_tree, present, replace_directory, eq_refl begin.fresh_id)
          (elim (Option-cases (begin.rmtree d)) [
            | inl removed ↦ inl (inl removed)
            | inr (left, kept) ↦ inl (inr (d, left, kept, kept))
          ])
  ]

  add_worktree-Undone : (commit : String) → Undone begin Anywhere (add_worktree begin commit)
  unfolding add_worktree
  add_worktree-Undone commit = record {
    at = λ w _ e h.
        let (r, source) = begin.worktree_add commit w.source in
        failed (record w { source = source }) r e h;
  }
    where
      failed :
          (w : World Tree) (r : Result Tree) (e : Exception)
          → (elim r as (λ _. Result Tree × World Tree) [
            | ok tree ↦ (
              ok tree,
              update_directory begin.fresh_id (λ d. record d { workspace = some tree }) w,
            )
            | err x ↦ (err x, remove_tree begin w)
          ]).0
            ≡ err e
          → Gone begin e
              (elim r as (λ _. Result Tree × World Tree) [
                | ok tree ↦ (
                  ok tree,
                  update_directory begin.fresh_id (λ d. record d { workspace = some tree }) w,
                )
                | err x ↦ (err x, remove_tree begin w)
              ]).1
      failed w (ok tree) e h = cc
      failed w (err x) e h = remove_tree-Gone e w

  make_directory-Undone : Undone begin (IsAbsent begin.fresh_id) (make_directory begin)
  unfolding make_directory
  make_directory-Undone = record { at = λ w absent e h. inl (inl (ground arith)) }

  -- The removal removes the tree, or raises what Git raised.
  abbrev Discarded : Result Bool → Result (Unit {0}) × World Tree → Type 0
  Discarded removal (r, w) =
      ((w1 : World Tree) × (r ≡ ok tt) × (w ≡ remove_tree begin w1))
      ⊎ ((x : Exception) × (r ≡ err x) × (removal ≡ err x))

  after_discard-Discarded :
      (w : World Tree) (p : Result Bool × Tree) → Discarded p.0 (after_discard begin w p)
  unfolding after_discard
  after_discard-Discarded w (ok removed, source) =
      inl (left_by_git begin w removed source, refl, refl)
  after_discard-Discarded w (err x, source) = inr (x, refl, refl)

  raise_again-Gone :
      (source : Tree) (x e : Exception) (p : Result (Unit {0}) × World Tree)
      → Discarded (begin.worktree_discard source).0 p
      → (raise_again {A = Manifest} x p).0 ≡ err e
      → Gone begin e (raise_again {A = Manifest} x p).1
  raise_again-Gone source x e (ok _, w) (inl (w1, returned, gone)) h =
      subst (Gone begin e) (sym gone) (remove_tree-Gone e w1)
  raise_again-Gone source x e (ok _, w) (inr (y, raised, by_git)) h = absurd (never raised)
    where
      never : ◌≡◌ {A = Result (Unit {0})} (ok tt) (err y) → ⊥
      never h = cc
  raise_again-Gone source x e (err y, w) (inl (w1, returned, gone)) h = absurd (never returned)
    where
      never : ◌≡◌ {A = Result (Unit {0})} (err y) (ok tt) → ⊥
      never h = cc
  raise_again-Gone source x e (err y, w) (inr (z, raised, by_git)) h =
      inr (source, by_git ∙ ap err (same raised h))
    where
      same :
          ◌≡◌ {A = Result (Unit {0})} (err y) (err z)
          → ◌≡◌ {A = Result Manifest} (err y) (err e)
          → z ≡ e
      same f g = cc

  write_or_discard-Undone :
      (m : Manifest) (content : Files) (tree : Tree)
      → Undone begin Anywhere (write_or_discard begin env m content tree)
  unfolding write_or_discard discard_unless discard read_clock
  write_or_discard-Undone m content tree = record { at = λ w _ e h. discarded _ e h }
    where
      discarded :
          (p : Result Manifest × World Tree) (e : Exception)
          → (discard_unless begin p).0 ≡ err e
          → Gone begin e (discard_unless begin p).1
      discarded (ok a, v) e h = cc
      discarded (err x, v) e h =
          raise_again-Gone v.source x e (discard begin v)
            (after_discard-Discarded v (begin.worktree_discard v.source)) h

  ReadOnly-raise_named :
      (test : Bool) (name text : String) → ReadOnly {Tree = Tree} (raise_named test name text)
  ReadOnly-raise_named true name text = record { world = λ w. refl }
  ReadOnly-raise_named false name text = record { world = λ w. refl }

  ReadOnly-admit_source : (mode : String) → ReadOnly (admit_source begin mode)
  unfolding admit_source
  ReadOnly-admit_source mode = record {
    world = λ w.
        (ReadOnly-bind (raise_named (not (mode == "off" || mode == "local")) _ _) _
            (ReadOnly-raise_named _ _ _)
            (λ _.
              ReadOnly-bind (raise_named (not begin.is_dir) _ _) _ (ReadOnly-raise_named _ _ _)
                (λ _.
                  ReadOnly-bind (raise_if begin.root_inside_source _) _ (ReadOnly-raise_if _ _)
                    (λ _. ReadOnly-bind (lift begin.private_directory) _ (ReadOnly-lift _) (λ _.
                      ReadOnly-bind (lift begin.is_top_level) _ (ReadOnly-lift _) (λ top.
                        ReadOnly-bind (raise_if (not top) _) _ (ReadOnly-raise_if _ _) (λ _.
                          ReadOnly-bind (lift (begin.is_clean w.source)) _ (ReadOnly-lift _)
                            (λ clean. ReadOnly-raise_if (not clean) _)))))))).world
          w;
  }

  create-Undone :
      (task mode : String) → Undone begin (IsAbsent begin.fresh_id) (create begin env task mode)
  unfolding create
  create-Undone task mode = record {
    at = λ w.
        (Undone-read (admit_source begin mode) _ (ReadOnly-admit_source mode) (λ _.
            Undone-read (lift (env.head w.source)) _ (ReadOnly-lift _) (λ commit.
              Undone-read
                (lift (
                  if mode == "local"
                  then begin.project_identity
                  else ok (env.library.sha256_hex begin.source_path)))
                _ (ReadOnly-lift _)
                (λ identity. Undone-read (lift (env.capture w.source)) _ (ReadOnly-lift _) (λ files.
                  Undone-read (lift (env.capture_content w.source)) _ (ReadOnly-lift _) (λ content.
                    Undone-bind (make_directory begin) _ (IsAbsent begin.fresh_id) Anywhere
                      make_directory-Undone (λ _ _. tt)
                      (λ _.
                        Undone-bind (add_worktree begin commit) _ Anywhere Anywhere
                          (add_worktree-Undone commit) (λ _ _. tt)
                          (λ tree.
                            write_or_discard-Undone
                              (new_manifest begin task mode commit identity
                                (fingerprint env.library files) (fingerprint env.library content))
                              content tree)))))))).at
          w;
  }

-- When `create` raises, whichever step raised, the saves included, it leaves no directory behind for
-- the fresh id, if there was none before, except in two cases: the directory is what `rmtree`, which
-- ignores its errors, left of one, or the exception is the one that Git's removal of the worktree
-- raised.
pub create-rollback :
    {Tree : Type 0} (begin : Begin Tree) (env : Env Tree) (task mode : String) (w : World Tree)
    (e : Exception)
    → w.directories begin.fresh_id ≡ none
    → (create begin env task mode w).0 ≡ err e
    → Gone begin e (create begin env task mode w).1
create-rollback begin env task mode w e absent h =
    (create-Undone begin env task mode).at w absent e h
