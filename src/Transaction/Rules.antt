-- ===== src/Transaction/Rules.antt =====
-- What actions of the store keep, one rule for each way to build an action, and the inversion of a
-- successful step.
use mini_code_agent_langgrap.Prelude.{
  ◌≡◌, refl, Bool, true, false, Option, none, some, String, Result, ok, err, ◌==◌, eq_iff, arith,
  subst, ap, ◌&&◌, not, eqb, if◌then◌else◌,
}
use mini_code_agent_langgrap.Manifest.{Manifest}
use mini_code_agent_langgrap.Transaction.Store.{
  Directory, World, Env, Action, pure, lift, raise, raise_if, continue, ◌>>=◌, directory, read_file,
  load, transaction_version, workspace_of,
}

-- `m` keeps `P`, whether it returns or raises.
pub record Keeps {Tree A : Type 0} (P : World Tree → Type 0) (m : Action Tree A) : Type 0 where
  pub at : (w : World Tree) → P w → P (m w).1

module _ {Tree A : Type 0} {P : World Tree → Type 0} where
  pub Keeps-pure : (a : A) → Keeps P (pure a)
  Keeps-pure a = record { at = λ w h. h }

  pub Keeps-lift : (r : Result A) → Keeps P (lift r)
  Keeps-lift r = record { at = λ w h. h }

  pub Keeps-raise : (name text : String) → Keeps {A = A} P (raise name text)
  Keeps-raise name text = record { at = λ w h. h }

  pub Keeps-if :
      (b : Bool) (m n : Action Tree A) → Keeps P m → Keeps P n → Keeps P (if b then m else n)
  Keeps-if true m n h k = h
  Keeps-if false m n h k = k

  pub Keeps-read_file : (label : String) (file : Option A) → Keeps P (read_file label file)
  unfolding read_file
  Keeps-read_file label none = record { at = λ w h. h }
  Keeps-read_file label (some content) = record { at = λ w h. h }

module _ {Tree A B : Type 0} {P : World Tree → Type 0} where
  continue-keeps :
      (f : A → Action Tree B) (p : Result A × World Tree)
      → ((a : A) → p.0 ≡ ok a → Keeps P (f a))
      → P p.1
      → P (continue f p).1
  continue-keeps f (ok a, w) k h = (k a refl).at w h
  continue-keeps f (err e, w) k h = h

  pub Keeps-bind :
      (m : Action Tree A) (next : A → Action Tree B)
      → Keeps P m
      → ((value : A) → Keeps P (next value))
      → Keeps P (m >>= next)
  Keeps-bind m f km kf = record { at = λ w h. continue-keeps f (m w) (λ a _. kf a) (km.at w h) }

  -- As above, with what the first step returned.
  pub Keeps-bind-ok :
      (m : Action Tree A) (f : A → Action Tree B)
      → Keeps P m
      → ((a : A) (w : World Tree) → (m w).0 ≡ ok a → Keeps P (f a))
      → Keeps P (m >>= f)
  Keeps-bind-ok m f km kf = record {
    at = λ w h. continue-keeps f (m w) (λ a e. kf a w e) (km.at w h);
  }

module _ {Tree : Type 0} where
  directory-world : (id : String) (w : World Tree) → w ≡ (directory id w).1
  unfolding directory
  directory-world id w = ground arith

module _ {Tree : Type 0} {P : World Tree → Type 0} where
  pub Keeps-raise_if : (b : Bool) (text : String) → Keeps P (raise_if b text)
  Keeps-raise_if true text = record { at = λ w h. h }
  Keeps-raise_if false text = record { at = λ w h. h }

  pub Keeps-directory : (id : String) → Keeps {A = Directory Tree} P (directory id)
  Keeps-directory id = record { at = λ w h. subst P (directory-world id w) h }

  pub Keeps-load : (env : Env Tree) (id : String) → Keeps P (load env id)
  unfolding load
  Keeps-load env id = Keeps-bind (directory id) _ (Keeps-directory id) (λ d.
      Keeps-bind (read_file "transaction manifest" d.manifest) _ (Keeps-read_file _ d.manifest)
        (λ m. Keeps-bind (raise_if _ _) _ (Keeps-raise_if _ _) (λ _. Keeps-pure _)))

  pub Keeps-workspace_of : (id : String) → Keeps {A = Tree} P (workspace_of id)
  unfolding workspace_of
  Keeps-workspace_of id =
      Keeps-bind (directory id) _ (Keeps-directory id) (λ d. of_option d.workspace)
    where
      of_option :
          (o : Option Tree)
          → Keeps {A = Tree} P (elim o [
            | none ↦ raise "TransactionError" "transaction workspace is missing or invalid"
            | some tree ↦ pure tree
          ])
      of_option none = record { at = λ w h. h }
      of_option (some tree) = record { at = λ w h. h }

module _ {Tree A B : Type 0} where
  -- The world that a step leaves when it returns.
  pub >>=-eq-ok :
      (m : Action Tree A) (f : A → Action Tree B) (w : World Tree) {b : B} {w' : World Tree}
      → (m >>= f) w ≡ (ok b, w')
      → (a : A) × (v : World Tree) × (m w ≡ (ok a, v)) × (f a v ≡ (ok b, w'))
  >>=-eq-ok m f w {b = b} {w' = w'} h = go (m w) refl h
    where
      go :
          (p : Result A × World Tree)
          → m w ≡ p
          → continue f p ≡ (ok b, w')
          → (a : A) × (v : World Tree) × (m w ≡ (ok a, v)) × (f a v ≡ (ok b, w'))
      go (ok a, v) e h = (a, v, e, h)
      go (err x, v) e h = cc

module _ {Tree : Type 0} where
  pub raise_if-eq-ok :
      (b : Bool) (text : String) (w : World Tree) {t : Unit {0}} {w' : World Tree}
      → raise_if (not b) text w ≡ (ok t, w')
      → b ≡ true
  raise_if-eq-ok true text w h = refl
  raise_if-eq-ok false text w h = cc

  pub raise_if-eq-false :
      (b : Bool) (text : String) (w : World Tree) {u : Unit {0}} {w' : World Tree}
      → raise_if b text w ≡ (ok u, w')
      → b ≡ false
  raise_if-eq-false true text w h = cc
  raise_if-eq-false false text w h = refl

  -- A manifest that is loaded is that of the transaction it is loaded for.
  pub load-id :
      (env : Env Tree) (id : String) (w : World Tree) {m : Manifest}
      → (load env id w).0 ≡ ok m
      → m.id ≡ id
  unfolding load
  load-id env id w {m = m} h =
      let (d, v, _, h1) = >>=-eq-ok (directory id) _ w (ap (λ r. (r, (load env id w).1)) h) in
      let (n, v1, _, h2) = >>=-eq-ok (read_file "transaction manifest" d.manifest) _ v h1 in
      let (_, v2, e, h3) =
        >>=-eq-ok (raise_if (not (eqb n.version transaction_version && n.id == id)) _) _ v1 h2 in
      let test = raise_if-eq-ok (eqb n.version transaction_version && n.id == id) _ v1 e in
      ground (arith, eq_iff n.id id)

module _ {Tree A : Type 0} where
  -- The inversion of the steps that read nothing of the world.
  pub lift-eq-ok :
      (r : Result A) (w : World Tree) {a : A} {w' : World Tree} → lift r w ≡ (ok a, w') → r ≡ ok a
  lift-eq-ok r w h = ap (λ p. p.0) h

  pub if-eq-ok :
      {P : Type 0} (b : Bool) (m n : Action Tree A) (w : World Tree) {a : A} {w' : World Tree}
      → (if b then m else n) w ≡ (ok a, w')
      → (b ≡ true → m w ≡ (ok a, w') → P)
      → (b ≡ false → n w ≡ (ok a, w') → P)
      → P
  if-eq-ok true m n w h f g = f refl h
  if-eq-ok false m n w h f g = g refl h
