-- ===== src/Prelude/JsonEquality.antt =====
-- Python's `==` on JSON values: numbers by value, lists in order, dicts by their keys.
use Prim.Native.String.{String}
use Prim.Native.Nat.{ℕ, suc}
use mathlib.Core.Bool.{Bool, true, false, ◌&&◌}
use mathlib.Core.Option.{none, some}
use text.Mathlib.Text.{◌==◌}
use mini_code_agent_langgrap.Prelude.Int.{ℤ, pos, negsuc}
use mini_code_agent_langgrap.Prelude.Tests.{eqb}
use mini_code_agent_langgrap.Prelude.Json.{
  Json, null, bool, int, float, str, arr, obj, Items, nil, cons, Fields, end, field, get,
}
use mini_code_agent_langgrap.Prelude.Library.{Library}

abbrev int_eq : ℤ → ℤ → Bool
int_eq (pos m) (pos n) = eqb m n
int_eq (negsuc m) (negsuc n) = eqb m n
int_eq _ _ = false

abbrev of_bool : Bool → ℤ
of_bool true = pos 1
of_bool false = pos 0

abbrev number_eq : Library → ℤ → Json → Bool
number_eq lib n (int m) = int_eq n m
number_eq lib n (bool b) = int_eq n (of_bool b)
number_eq lib n (float t) = lib.float_equals t n
number_eq lib n _ = false

abbrev float_eq : Library → String → Json → Bool
float_eq lib t (float u) = t == u
float_eq lib t (int n) = lib.float_equals t n
float_eq lib t (bool b) = lib.float_equals t (of_bool b)
float_eq lib t _ = false

abbrev str_eq : String → Json → Bool
str_eq s (str t) = s == t
str_eq s _ = false

abbrev is_null : Json → Bool
is_null null = true
is_null _ = false

abbrev dict_size : Fields → ℕ
dict_size end = 0
dict_size (field k v rest) = suc (dict_size rest)

unfoldable mutual
  pub json_eq : Library → Json → Json → Bool
  json_eq lib null v = is_null v
  json_eq lib (bool b) v = number_eq lib (of_bool b) v
  json_eq lib (int n) v = number_eq lib n v
  json_eq lib (float t) v = float_eq lib t v
  json_eq lib (str s) v = str_eq s v
  json_eq lib (arr xs) v = elim v [ arr ys ↦ items_eq lib xs ys | _ ↦ false ]
  json_eq lib (obj fs) v = elim v [
    | obj gs ↦ eqb (dict_size fs) (dict_size gs) && fields_eq lib fs gs
    | _ ↦ false
  ]

  pub items_eq : Library → Items → Items → Bool
  items_eq lib nil ys = elim ys [ nil ↦ true | cons _ _ ↦ false ]
  items_eq lib (cons x xs) ys = elim ys [
    | nil ↦ false
    | cons y ys' ↦ json_eq lib x y && items_eq lib xs ys'
  ]

  pub fields_eq : Library → Fields → Fields → Bool
  fields_eq lib end gs = true
  fields_eq lib (field k v fs) gs = elim (get k gs) [
    | none ↦ false
    | some w ↦ json_eq lib v w && fields_eq lib fs gs
  ]
