-- ===== src/Prelude/Json.antt =====
-- JSON values as Python's json module reads them, with dict lookup. A float is its decimal text.
use Prim.Native.String.{String}
use mathlib.Core.Bool.{Bool, true, false, not, ◌&&◌, ◌||◌}
use mathlib.Core.List.{List, [], ◌∷◌}
use Prim.Native.Nat.{zero, suc}
use mathlib.Core.Option.{Option, none, some}
use text.Mathlib.Text.{◌==◌}
use mini_code_agent_langgrap.Prelude.Int.{ℤ, pos, is_zero}
use mini_code_agent_langgrap.Prelude.Tests.{if◌then◌else◌}

mutual
  pub data Json : Type 0 where
    null : Json
    bool : Bool → Json
    int : ℤ → Json
    float : String → Json
    str : String → Json
    arr : Items → Json
    obj : Fields → Json

  pub data Items : Type 0 where
    nil : Items
    cons : Json → Items → Items

  pub data Fields : Type 0 where
    end : Fields
    field : String → Json → Fields → Fields

-- `fields.get(key)`
abbrev pub get : String → Fields → Option Json
get k end = none
get k (field j v rest) = if j == k then some v else get k rest

-- `bool(value)`
abbrev pub truthy : Json → Bool
truthy null = false
truthy (bool b) = b
truthy (int n) = not (is_zero n)
truthy (float t) = not (t == "0.0" || t == "-0.0")
truthy (str s) = not (s == "")
truthy (arr nil) = false
truthy (arr (cons _ _)) = true
truthy (obj end) = false
truthy (obj (field _ _ _)) = true

-- `value == 0`
abbrev pub equals_zero : Json → Bool
equals_zero (int n) = is_zero n
equals_zero (bool b) = not b
equals_zero (float t) = t == "0.0" || t == "-0.0"
equals_zero _ = false

-- `value == text`
abbrev pub equals_str : String → Json → Bool
equals_str t (str s) = s == t
equals_str t _ = false

-- `value == flag`: a bool equals the ints and floats 0 and 1
abbrev pub equals_bool : Bool → Json → Bool
equals_bool true (bool b) = b
equals_bool true (int (pos (suc zero))) = true
equals_bool true (float t) = t == "1.0"
equals_bool true _ = false
equals_bool false v = equals_zero v

abbrev pub equals_items : List String → Items → Bool
equals_items [] nil = true
equals_items [] (cons _ _) = false
equals_items (t ∷ ts) nil = false
equals_items (t ∷ ts) (cons v vs) = equals_str t v && equals_items ts vs

-- `value == texts`
abbrev pub equals_strs : List String → Json → Bool
equals_strs ts (arr vs) = equals_items ts vs
equals_strs ts _ = false

abbrev pub strs : List String → Items
strs [] = nil
strs (t ∷ ts) = cons (str t) (strs ts)

abbrev pub items : List Json → Items
items [] = nil
items (v ∷ vs) = cons v (items vs)

-- `fields.get(key, default)`
abbrev pub get_default : String → Json → Fields → Json
get_default k d fields = elim (get k fields) [ none ↦ d | some v ↦ v ]

-- `value.get(key)` where the value is a dict
abbrev pub get_in : String → Json → Option Json
get_in k (obj fields) = get k fields
get_in k _ = none
