-- ===== src/Prelude/Sorting.antt =====
-- What holds of all the elements of a list, and filters and sorts of it; membership of a text.
use Prim.Native.String.{String}
use mathlib.Core.Path.{◌≡◌, refl, sym, ◌∙◌, ap, subst}
use mathlib.Core.Bool.{Bool, true, false, ◌&&◌, ◌||◌}
use mathlib.Core.List.{List, [], ◌∷◌, ◌++◌}
use mathlib.Core.Logic.{inl, inr}
use native.Mathlib.Omega.{arith}
use text.Mathlib.Text.{◌==◌}
use text.Mathlib.TextEquality.{eq_iff}
use mini_code_agent_langgrap.Prelude.Tests.{Bool-cases}
use mini_code_agent_langgrap.Prelude.Lists.{All, contains, filter, insert_by, sort_by}

module _ {ℓ} {A : Type ℓ} where
  pub filter-true :
      (q : A → Bool) (x : A) (xs : List A) → q x ≡ true → filter q (x ∷ xs) ≡ x ∷ filter q xs
  unfolding filter
  filter-true q x xs e = rw e refl

  pub filter-false :
      (q : A → Bool) (x : A) (xs : List A) → q x ≡ false → filter q (x ∷ xs) ≡ filter q xs
  unfolding filter
  filter-false q x xs e = rw e refl

  pub insert_by-true :
      (lt : A → A → Bool) (x y : A) (ys : List A)
      → lt y x ≡ true
      → insert_by lt x (y ∷ ys) ≡ y ∷ insert_by lt x ys
  unfolding insert_by
  insert_by-true lt x y ys e = rw e refl

  pub insert_by-false :
      (lt : A → A → Bool) (x y : A) (ys : List A)
      → lt y x ≡ false
      → insert_by lt x (y ∷ ys) ≡ x ∷ y ∷ ys
  unfolding insert_by
  insert_by-false lt x y ys e = rw e refl

  -- The tests that pass hold of what is left.
  pub All-filter_test : (q : A → Bool) (xs : List A) → All (λ x. q x ≡ true) (filter q xs)
  unfolding filter
  All-filter_test q [] = tt
  All-filter_test q (x ∷ xs) = elim (Bool-cases (q x)) [
    | inl e ↦ rw (filter-true q x xs e) (e, All-filter_test q xs)
    | inr e ↦ rw (filter-false q x xs e) (All-filter_test q xs)
  ]

module _ {ℓ κ} {A : Type ℓ} (P : A → Type κ) where
  pub All-filter : (q : A → Bool) (xs : List A) → All P xs → All P (filter q xs)
  unfolding filter
  All-filter q [] h = tt
  All-filter q (x ∷ xs) (p, ps) = elim (Bool-cases (q x)) [
    | inl e ↦ rw e (p, All-filter q xs ps)
    | inr e ↦ rw e (All-filter q xs ps)
  ]

  pub filter-All :
      (q : A → Bool) (xs : List A) → All P (filter q xs) → All (λ x. q x ≡ true → P x) xs
  unfolding filter
  filter-All q [] h = tt
  filter-All q (x ∷ xs) h = elim (Bool-cases (q x)) [
    | inl e ↦
        let both = subst (All P) (filter-true q x xs e) h in ((λ _. both.0), filter-All q xs both.1)
    | inr e ↦ ((λ t. absurd (sym t ∙ e)), filter-All q xs (subst (All P) (filter-false q x xs e) h))
  ]
    where
      absurd : {X : Type κ} → true ≡ false → X
      absurd n = cc

  pub All-insert_by :
      (lt : A → A → Bool) (x : A) (ys : List A) → P x → All P ys → All P (insert_by lt x ys)
  unfolding insert_by
  All-insert_by lt x [] p h = (p, tt)
  All-insert_by lt x (y ∷ ys) p (q, qs) = elim (Bool-cases (lt y x)) [
    | inl e ↦ rw e (q, All-insert_by lt x ys p qs)
    | inr e ↦ rw e (p, (q, qs))
  ]

  pub insert_by-All :
      (lt : A → A → Bool) (x : A) (ys : List A) → All P (insert_by lt x ys) → P x × All P ys
  unfolding insert_by
  insert_by-All lt x [] h = h
  insert_by-All lt x (y ∷ ys) h = elim (Bool-cases (lt y x)) [
    | inl e ↦
        let (q, rest) = subst (All P) (insert_by-true lt x y ys e) h in
        let (p, qs) = insert_by-All lt x ys rest in (p, (q, qs))
    | inr e ↦ subst (All P) (insert_by-false lt x y ys e) h
  ]

  pub All-sort_by : (lt : A → A → Bool) (xs : List A) → All P xs → All P (sort_by lt xs)
  unfolding sort_by
  All-sort_by lt [] h = tt
  All-sort_by lt (x ∷ xs) (p, ps) = All-insert_by lt x (sort_by lt xs) p (All-sort_by lt xs ps)

  pub sort_by-All : (lt : A → A → Bool) (xs : List A) → All P (sort_by lt xs) → All P xs
  unfolding sort_by
  sort_by-All lt [] h = tt
  sort_by-All lt (x ∷ xs) h =
      let (p, rest) = insert_by-All lt x (sort_by lt xs) h in (p, sort_by-All lt xs rest)

pub All-imp {ℓ κ μ} :
    {A : Type ℓ} {P : A → Type κ} {Q : A → Type μ} (xs : List A)
    → ((x : A) → P x → Q x)
    → All P xs
    → All Q xs
All-imp [] f h = tt
All-imp (x ∷ xs) f (p, ps) = (f x p, All-imp xs f ps)

pub eq_comm : (a b : String) → (a == b) ≡ (b == a)
eq_comm a b = elim (Bool-cases (a == b)) [
  | inl e ↦ let same = (eq_iff a b).0 e in rw same refl
  | inr e ↦ elim (Bool-cases (b == a)) [
    | inr f ↦ e ∙ sym f
    | inl f ↦ let same = (eq_iff b a).0 f in rw same refl
  ]
]

pub contains-append :
    (a : String) (xs ys : List String) → contains a (xs ++ ys) ≡ contains a xs || contains a ys
contains-append a [] ys = refl
contains-append a (x ∷ xs) ys = let more = contains-append a xs ys in ground arith

pub contains-filter :
    (a : String) (q : String → Bool) (xs : List String)
    → contains a (filter q xs) ≡ contains a xs && q a
unfolding filter
contains-filter a q [] = refl
contains-filter a q (x ∷ xs) =
    let more = contains-filter a q xs in
    elim (Bool-cases (a == x)) [
      | inl e ↦ let same : q a ≡ q x = ap q ((eq_iff a x).0 e) in ground arith
      | inr e ↦ ground arith
    ]

pub contains-insert_by :
    (lt : String → String → Bool) (a x : String) (ys : List String)
    → contains a (insert_by lt x ys) ≡ a == x || contains a ys
unfolding insert_by
contains-insert_by lt a x [] = refl
contains-insert_by lt a x (y ∷ ys) = let more = contains-insert_by lt a x ys in ground arith

pub contains-sort_by :
    (lt : String → String → Bool) (a : String) (xs : List String)
    → contains a (sort_by lt xs) ≡ contains a xs
unfolding sort_by
contains-sort_by lt a [] = refl
contains-sort_by lt a (x ∷ xs) =
    contains-insert_by lt a x (sort_by lt xs) ∙ ap (λ b. a == x || b) (contains-sort_by lt a xs)
