-- ===== src/Utils.antt =====
-- src/mini_code_agent/utils.py: the bound on texts that are kept in observations and state.
use Prim.Native.String.{count}
use mini_code_agent_langgrap.Prelude.{
  ℕ, ◌-◌, ◌/◌, [], ◌∷◌, String, concat, take_chars, last_chars, decimal, leb, if◌then◌else◌,
}

abbrev pub default_output_limit : ℕ
default_output_limit = 12000

unfoldable pub truncate_text : String → ℕ → String
unfolding take_chars last_chars decimal
truncate_text text limit =
    if leb (count text) limit
    then text
    else let head = limit / 2 in
      let tail = limit - head in
      concat (
        take_chars head text
        ∷ "\n\n...[elided "
        ∷ decimal (count text - limit)
        ∷ " chars]...\n\n"
        ∷ last_chars tail text
        ∷ [])
