-- ===== src/Prelude/Texts/Strip.antt =====
-- `strip` is idempotent.
use Prim.Native.Char.{code}
use Prim.Native.String.{String}
use mathlib.Core.Path.{◌≡◌, refl}
use mathlib.Core.Logic.{inl, inr}
use mathlib.Core.Bool.{false, ◌&&◌}
use mini_code_agent_langgrap.Prelude.Tests.{Bool-cases}
use mini_code_agent_langgrap.Prelude.Texts.{is_empty, is_space, lstrip, rstrip, strip}

-- The first character, if there is one, is no whitespace.
abbrev StartsSolid : String → Type 0
StartsSolid String.[] = Unit
StartsSolid (String.◌∷◌ c s) = is_space (code c) ≡ false

lstrip-StartsSolid : (s : String) → StartsSolid (lstrip s)
unfolding lstrip
lstrip-StartsSolid String.[] = tt
lstrip-StartsSolid (String.◌∷◌ c s) = elim (Bool-cases (is_space (code c))) [
  | inl e ↦ rw e (lstrip-StartsSolid s)
  | inr e ↦ rw e e
]

rstrip-StartsSolid : (s : String) → StartsSolid s → StartsSolid (rstrip s)
unfolding rstrip
rstrip-StartsSolid String.[] h = tt
rstrip-StartsSolid (String.◌∷◌ c s) h = elim (Bool-cases (is_empty (rstrip s))) [
  | inl e ↦ rw (e, h) h
  | inr e ↦ rw e h
]

lstrip_solid : (s : String) → StartsSolid s → lstrip s ≡ s
unfolding lstrip
lstrip_solid String.[] h = refl
lstrip_solid (String.◌∷◌ c s) h = rw h

rstrip-rstrip : (s : String) → rstrip (rstrip s) ≡ rstrip s
unfolding rstrip
rstrip-rstrip String.[] = refl
rstrip-rstrip (String.◌∷◌ c s) = elim (Bool-cases (is_empty (rstrip s) && is_space (code c))) [
  | inl e ↦ rw e
  | inr e ↦ rw e (rw (rstrip-rstrip s) (rw e))
]

pub strip-strip : (s : String) → strip (strip s) ≡ strip s
unfolding strip
strip-strip s =
    rw (lstrip_solid (rstrip (lstrip s)) (rstrip-StartsSolid (lstrip s) (lstrip-StartsSolid s)))
      (rstrip-rstrip (lstrip s))
