-- ===== src/Prelude/Texts.antt =====
-- Python's str: truth value, f-strings, join, strip, slices and the decimal text of an int.
-- A text is a sequence of code points, as in Python; `count` is its `len`.
pub mod Strip
pub mod Join
use Prim.Native.Nat.{ℕ, zero, suc, ◌+◌, ◌-◌, ◌/◌, ◌%◌}
use Prim.Native.Char.{code}
use Prim.Native.String
use Prim.Native.String.{String, slice, count}
use mathlib.Core.Bool.{Bool, ◌&&◌, ◌||◌}
use mathlib.Core.List.{List, [], ◌∷◌}
use text.Mathlib.Text.{◌==◌}
use mini_code_agent_langgrap.Prelude.Tests.{ltb, leb, eqb, if◌then◌else◌}
use mini_code_agent_langgrap.Prelude.Int.{ℤ, pos, negsuc}

-- `not text`
abbrev pub is_empty : String → Bool
is_empty s = s == ""

-- The parts of an f-string, joined.
abbrev pub concat : List String → String
concat [] = ""
concat (s ∷ rest) = String.◌++◌ s (concat rest)

abbrev prefixed : String → List String → String
prefixed sep [] = ""
prefixed sep (s ∷ rest) = String.◌++◌ sep (String.◌++◌ s (prefixed sep rest))

-- `sep.join(parts)`
abbrev pub join : String → List String → String
join sep [] = ""
join sep (s ∷ rest) = String.◌++◌ s (prefixed sep rest)

-- `str.isspace` of one code point.
unfoldable pub is_space : ℕ → Bool
is_space c =
    (leb 9 c && leb c 13)
    || ((leb 28 c && leb c 32)
        || (eqb c 133
            || (eqb c 160
                || (eqb c 5760
                    || ((leb 8192 c && leb c 8202)
                        || ((leb 8232 c && leb c 8233)
                            || (eqb c 8239 || (eqb c 8287 || eqb c 12288))))))))

unfoldable pub lstrip : String → String
lstrip String.[] = ""
lstrip (String.◌∷◌ c s) = let rest = lstrip s in if is_space (code c) then rest else String.◌∷◌ c s

unfoldable pub rstrip : String → String
rstrip String.[] = ""
rstrip (String.◌∷◌ c s) =
    let rest = rstrip s in if is_empty rest && is_space (code c) then "" else String.◌∷◌ c rest

-- `text.strip()`
unfoldable pub strip : String → String
unfolding lstrip rstrip is_space
strip s = rstrip (lstrip s)

-- `text[:n]` and `text[n:]`
unfoldable pub take_chars : ℕ → String → String
take_chars zero s = ""
take_chars (suc n) String.[] = ""
take_chars (suc n) (String.◌∷◌ c s) = String.◌∷◌ c (take_chars n s)

unfoldable pub drop_chars : ℕ → String → String
drop_chars zero s = s
drop_chars (suc n) String.[] = ""
drop_chars (suc n) (String.◌∷◌ c s) = drop_chars n s

-- `text[-n:]`: all of the text for n = 0
unfoldable pub last_chars : ℕ → String → String
unfolding drop_chars
last_chars n s = if eqb n 0 then s else drop_chars (count s - n) s

abbrev digit : ℕ → String
digit d = slice "0123456789" d (d + 1)

decimal_digits : ℕ → ℕ → String
decimal_digits zero n = ""
decimal_digits (suc fuel) n =
    let rest = decimal_digits fuel (n / 10) in
    if ltb n 10 then digit n else String.◌++◌ rest (digit (n % 10))

-- `str(n)` for n ≥ 0: a number has at most n + 1 digits.
unfoldable pub decimal : ℕ → String
unfolding decimal_digits
decimal n = decimal_digits (suc n) n

-- `str(n)`
unfoldable pub decimal_int : ℤ → String
unfolding decimal
decimal_int (pos n) = decimal n
decimal_int (negsuc n) = String.◌++◌ "-" (decimal (suc n))
