-- ===== src/Prelude/Lists.antt =====
-- Lists measured by native numbers, predicates on their elements, and membership of a text.
use Prim.Native.Nat.{ℕ, zero, suc, ◌+◌}
use Prim.Native.String.{String}
use mathlib.Core.Path.{◌≡◌}
use mathlib.Core.Bool.{Bool, true, false, ◌&&◌, ◌||◌}
use mathlib.Core.List.{List, [], ◌∷◌, ◌++◌}
use native.Mathlib.Omega.{arith}
use text.Mathlib.Text.{◌==◌}
use mini_code_agent_langgrap.Prelude.Tests.{if◌then◌else◌}

module _ {ℓ} {A : Type ℓ} where
  abbrev pub length : List A → ℕ
  length [] = 0
  length (x ∷ xs) = suc (length xs)

  abbrev pub take : ℕ → List A → List A
  take zero xs = []
  take (suc n) [] = []
  take (suc n) (x ∷ xs) = x ∷ take n xs

  abbrev pub All {κ} : (A → Type κ) → List A → Type κ
  All holds [] = Unit
  All holds (first ∷ rest) = holds first × All holds rest

  abbrev pub all : (A → Bool) → List A → Bool
  all p [] = true
  all p (x ∷ xs) = p x && all p xs

  pub length-append : (xs ys : List A) → length (xs ++ ys) ≡ length xs + length ys
  length-append [] ys = omega arith
  length-append (x ∷ xs) ys = omega (arith, length-append xs ys)

-- `a in xs`
abbrev pub contains : String → List String → Bool
contains a [] = false
contains a (x ∷ xs) = a == x || contains a xs

module _ {ℓ} {A : Type ℓ} where
  -- `[x for x in xs if p(x)]`
  unfoldable pub filter : (A → Bool) → List A → List A
  filter p [] = []
  filter p (x ∷ xs) = let rest = filter p xs in if p x then x ∷ rest else rest

  -- `sorted(xs, key=...)`, which is stable, for the order `lt` of the keys.
  unfoldable pub insert_by : (A → A → Bool) → A → List A → List A
  insert_by lt x [] = x ∷ []
  insert_by lt x (y ∷ ys) = let rest = insert_by lt x ys in if lt y x then y ∷ rest else x ∷ y ∷ ys

  unfoldable pub sort_by : (A → A → Bool) → List A → List A
  unfolding insert_by
  sort_by lt [] = []
  sort_by lt (x ∷ xs) = insert_by lt x (sort_by lt xs)
