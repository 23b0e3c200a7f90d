-- ===== src/Transaction/Reads.antt =====
-- The actions that only read the world, and the inversion of a step of them.
use mini_code_agent_langgrap.Prelude.{
  ◌≡◌, refl, sym, ◌∙◌, ap, subst, Bool, Option, String, Result, ok, err,
}
use mini_code_agent_langgrap.Transaction.Store.{
  World, Env, Action, lift, raise_if, continue, ◌>>=◌, directory, read_file, load, workspace_of,
}
use mini_code_agent_langgrap.Transaction.Rules.{
  Keeps, Keeps-lift, Keeps-raise_if, Keeps-directory, Keeps-read_file, Keeps-load,
  Keeps-workspace_of, >>=-eq-ok,
}

-- `m` leaves the world as it is, whether it returns or raises.
pub record ReadOnly {Tree A : Type 0} (m : Action Tree A) : Type 0 where
  pub world : (w : World Tree) → w ≡ (m w).1

module _ {Tree A : Type 0} where
  read_only : (m : Action Tree A) → ((w : World Tree) → Keeps (λ v. w ≡ v) m) → ReadOnly m
  read_only m k = record { world = λ w. (k w).at w refl }

  pub ReadOnly-lift : (r : Result A) → ReadOnly {Tree = Tree} (lift r)
  ReadOnly-lift r = read_only _ (λ w. Keeps-lift r)

  pub ReadOnly-read_file :
      (label : String) (file : Option A) → ReadOnly {Tree = Tree} (read_file label file)
  ReadOnly-read_file label file = read_only _ (λ w. Keeps-read_file label file)

module _ {Tree : Type 0} where
  pub ReadOnly-raise_if : (b : Bool) (text : String) → ReadOnly {Tree = Tree} (raise_if b text)
  ReadOnly-raise_if b text = read_only _ (λ w. Keeps-raise_if b text)

  pub ReadOnly-directory : (id : String) → ReadOnly {Tree = Tree} (directory id)
  ReadOnly-directory id = read_only _ (λ w. Keeps-directory id)

  pub ReadOnly-load : (env : Env Tree) (id : String) → ReadOnly (load env id)
  ReadOnly-load env id = read_only _ (λ w. Keeps-load env id)

  pub ReadOnly-workspace_of : (id : String) → ReadOnly {Tree = Tree} (workspace_of id)
  ReadOnly-workspace_of id = read_only _ (λ w. Keeps-workspace_of id)

module _ {Tree A B : Type 0} where
  -- A step that only reads, and returns: what it returned, and what follows from the same world.
  pub read-eq-ok :
      (m : Action Tree A) (f : A → Action Tree B) (w : World Tree) {b : B} {w' : World Tree}
      → ReadOnly m
      → (m >>= f) w ≡ (ok b, w')
      → (a : A) × (m w ≡ (ok a, w)) × (f a w ≡ (ok b, w'))
  read-eq-ok m f w {b = b} {w' = w'} r h =
      let (a, v, e, h1) = >>=-eq-ok m f w h in
      let same : v ≡ w = sym (r.world w ∙ ap (λ p. p.1) e) in
      (a, subst (λ x. m w ≡ (ok a, x)) same e, subst (λ x. f a x ≡ (ok b, w')) same h1)

  pub ReadOnly-bind :
      (m : Action Tree A) (f : A → Action Tree B)
      → ReadOnly m
      → ((a : A) → ReadOnly (f a))
      → ReadOnly (m >>= f)
  ReadOnly-bind m f rm rf = record { world = λ w. go w (m w) (rm.world w) }
    where
      go : (w : World Tree) (p : Result A × World Tree) → w ≡ p.1 → w ≡ (continue f p).1
      go w (ok a, v) e = e ∙ (rf a).world v
      go w (err x, v) e = e
