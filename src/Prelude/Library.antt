-- ===== src/Prelude/Library.antt =====
-- Python's library as parameters: hashlib's digest and hmac's keyed digest of a text, json's
-- canonical text of a value (sorted keys, no spaces) and its parser (`none` where it raises), `str`
-- of a value that is no text, `repr` of a text, and `int` of the text of a float or a str;
-- `float_equals` compares a float with an int, and `resolve` is `str(Path(text).resolve())`.
use Prim.Native.String.{String}
use mathlib.Core.Bool.{Bool}
use mathlib.Core.Option.{Option}
use mini_code_agent_langgrap.Prelude.Int.{ℤ}
use mini_code_agent_langgrap.Prelude.Results.{Result}
use mini_code_agent_langgrap.Prelude.Json.{Json}

pub record Library : Type 0 where
  pub sha256_hex : String → String
  pub hmac_hex : String → String → String
  pub canonical_json : Json → String
  pub str_of : Json → String
  pub int_of : String → Result ℤ
  pub repr : String → String
  pub json_loads : String → Option Json
  pub float_equals : String → ℤ → Bool
  pub resolve : String → String
