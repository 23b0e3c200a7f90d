-- ===== src/Prelude/Texts/Join.antt =====
-- The length of joined texts.
use Prim.Native.Nat.{◌+◌}
use Prim.Native.String
use Prim.Native.String.{String, count}
use text.Mathlib.TextLemmas.{length-append}
use mathlib.Core.Path.{◌≡◌}
use mathlib.Core.List.{List, [], ◌∷◌, ◌++◌}
use native.Mathlib.Omega.{arith}
use mini_code_agent_langgrap.Prelude.Texts.{prefixed, join}

count-prefixed :
    (sep : String) (xs : List String) (t : String)
    → count (prefixed sep (xs ++ (t ∷ []))) ≡ count (prefixed sep xs) + (count sep + count t)
count-prefixed sep [] t = omega (arith, length-append sep (String.◌++◌ t ""), length-append t "")
count-prefixed sep (x ∷ xs) t =
    let more = prefixed sep (xs ++ (t ∷ [])) in
    omega (
      arith,
      count-prefixed sep xs t,
      length-append sep (String.◌++◌ x more),
      length-append x more,
      length-append sep (String.◌++◌ x (prefixed sep xs)),
      length-append x (prefixed sep xs),
    )

pub count-join_one : (sep t : String) → count (join sep (t ∷ [])) ≡ count t
count-join_one sep t = omega (arith, length-append t "")

pub count-join_snoc :
    (sep x : String) (xs : List String) (t : String)
    → count (join sep ((x ∷ xs) ++ (t ∷ []))) ≡ count (join sep (x ∷ xs)) + (count sep + count t)
count-join_snoc sep x xs t =
    let more = prefixed sep (xs ++ (t ∷ [])) in
    omega (arith, count-prefixed sep xs t, length-append x more, length-append x (prefixed sep xs))
