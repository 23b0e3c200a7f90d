-- ===== src/Prelude/Results.antt =====
-- A Python call that may raise: its value, or the exception's class name and text.
use Prim.Native.String.{String}
use mathlib.Core.List.{[], ◌∷◌}
use mathlib.Core.Bool.{Bool, true, false}
use mathlib.Core.Path.{◌≡◌, refl}
use mathlib.Core.Logic.{◌⊎◌, inl, inr}
use mini_code_agent_langgrap.Prelude.Texts.{concat}

pub record Exception : Type 0 where
  pub name : String
  pub text : String

pub data Result {ℓ} (A : Type ℓ) : Type ℓ where
  err : Exception → Result A
  ok : A → Result A

infixl 5 ◌>>=◌ ◌>>◌
-- The first exception ends the chain.
abbrev pub ◌>>=◌ {ℓ κ} : {A : Type ℓ} {B : Type κ} → Result A → (A → Result B) → Result B
err raised >>= next = err raised
ok value >>= next = next value

abbrev pub ◌>>◌ {ℓ} : {B : Type ℓ} → Result (Unit {0}) → Result B → Result B
first >> second = first >>= λ _. second

-- `if test: raise name(text)`
abbrev pub raise_if : Bool → String → String → Result (Unit {0})
raise_if true n t = err (record { name = n; text = t })
raise_if false n t = ok tt

abbrev pub raise {ℓ} : {A : Type ℓ} → String → String → Result A
raise n t = err (record { name = n; text = t })

-- f"{type(exc).__name__}: {exc}"
abbrev pub describe : Exception → String
describe e = concat (e.name ∷ ": " ∷ e.text ∷ [])

-- Inversion of a successful step.
pub >>=-eq-ok {ℓ κ} :
    {A : Type ℓ} {B : Type κ} (first : Result A) (next : A → Result B) {final : B}
    → (first >>= next) ≡ ok final
    → (value : A) × (first ≡ ok value) × (next value ≡ ok final)
>>=-eq-ok (err raised) next e = cc
>>=-eq-ok (ok value) next e = (value, refl, e)

-- A guard that passed had a false test.
pub raise_if-eq-ok : (b : Bool) (n t : String) {u : Unit {0}} → raise_if b n t ≡ ok u → b ≡ false
raise_if-eq-ok true n t h = cc
raise_if-eq-ok false n t h = refl

pub Result-cases {ℓ} :
    {A : Type ℓ} (r : Result A) → ((a : A) × (r ≡ ok a)) ⊎ ((e : Exception) × (r ≡ err e))
Result-cases (ok a) = inl (a, refl)
Result-cases (err e) = inr (e, refl)
