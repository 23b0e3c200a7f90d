-- ===== src/Continuity.antt =====
-- src/memory_core/continuity.py: the memories that are considered for retention, the plan that makes
-- room for one more (Retention), and the facts that open a new session (Recall). Python's floats are a
-- type with the operations that the code calls, the record Floats. Times and counts are natural
-- numbers, so the tests for negative ones are not needed.
pub mod Retention
pub mod Recall
pub mod Ids
use Prim.Native.String.{count, compare}
use Prim.Native.Nat.{Ordering}
use mini_code_agent_langgrap.Prelude.{
  ℕ, ◌+◌, ◌-◌, Bool, true, false, not, ◌&&◌, ◌||◌, List, [], ◌∷◌, String, Result, ok, ◌==◌, ltb,
  leb, eqb, is_empty, strip, concat, contains, if◌then◌else◌,
}
use mini_code_agent_langgrap.Prelude.Results.{◌>>=◌, ◌>>◌, raise_if}

-- `literal` is the float of a literal of the source, `of_int` and `ratio` the conversion of an int
-- and the true division of two.
pub record Floats (F : Type 0) : Type 0 where
  pub literal : String → F
  pub of_int : ℕ → F
  pub ratio : ℕ → ℕ → F
  pub add : F → F → F
  pub mul : F → F → F
  pub div : F → F → F
  pub log : F → F
  pub log1p : F → F
  pub equal : F → F → Bool
  pub less : F → F → Bool

pub record ContinuityMemory (F : Type 0) : Type 0 where
  pub record_id : String
  pub text : String
  pub retention_class : String
  pub recorded_at_ns : ℕ
  pub last_used_at_ns : ℕ
  pub use_count : ℕ
  pub importance : F
  pub confidence : F
  pub identity_anchor : String
  pub pinned : Bool
  pub source_valid : Bool
  pub status : String
  pub authority : String
  pub evidence_refs : List String

abbrev pub retention_classes : List String
retention_classes = "core" ∷ "durable" ∷ "episodic" ∷ "transient" ∷ []

-- `_RETENTION_RANK[name]`; a memory has no other class.
unfoldable pub retention_rank : String → ℕ
retention_rank name =
    if name == "core"
    then 3
    else if name == "durable"
    then 2
    else if name == "episodic"
    then 1
    else 0

abbrev pub continuity_authorities : List String
continuity_authorities = "none" ∷ "inform" ∷ "act" ∷ []

unfoldable pub less_text : String → String → Bool
less_text a b = elim (compare a b) [ Ordering.lt ↦ true | _ ↦ false ]

-- The order of tuples: each component's test for equality and for less, from the first to the last.
abbrev pub tuple_less : List (Bool × Bool) → Bool
tuple_less [] = false
tuple_less ((equal, less) ∷ rest) = let later = tuple_less rest in if equal then later else less

abbrev pub nat_key : ℕ → ℕ → Bool × Bool
nat_key a b = (eqb a b, ltb a b)

abbrev pub text_key : String → String → Bool × Bool
text_key a b = (a == b, less_text a b)

module _ {F : Type 0} where
  -- `item.chars`
  abbrev pub chars : ContinuityMemory F → ℕ
  chars m = count m.text

  abbrev pub is_active : ContinuityMemory F → Bool
  is_active m = m.status == "active"

  abbrev pub record_ids : List (ContinuityMemory F) → List String
  record_ids [] = []
  record_ids (m ∷ ms) = m.record_id ∷ record_ids ms

  unfoldable pub sum_chars : List (ContinuityMemory F) → ℕ
  sum_chars [] = 0
  sum_chars (m ∷ ms) = chars m + sum_chars ms

module _ {F : Type 0} (floats : Floats F) where
  abbrev pub float_key : F → F → Bool × Bool
  float_key a b = (floats.equal a b, floats.less a b)

  -- `0 <= value <= 1`
  abbrev is_unit : F → Bool
  is_unit x =
      (floats.less (floats.of_int 0) x || floats.equal (floats.of_int 0) x)
      && (floats.less x (floats.of_int 1) || floats.equal x (floats.of_int 1))

  -- `ContinuityMemory(...)`
  unfoldable pub continuity_memory : ContinuityMemory F → Result (ContinuityMemory F)
  continuity_memory m = do
    raise_if (is_empty (strip m.record_id)) "ValueError" "continuity record id must not be blank"
    raise_if (is_empty (strip m.text)) "ValueError" "continuity memory text must not be blank"
    raise_if (not (contains m.retention_class retention_classes)) "ValueError"
        (concat ("unsupported retention class: " ∷ m.retention_class ∷ []))
    raise_if (not (is_unit m.importance) || not (is_unit m.confidence)) "ValueError"
        "continuity importance and confidence must be in [0, 1]"
    raise_if (not (contains m.authority continuity_authorities)) "ValueError"
        (concat ("unsupported continuity authority: " ∷ m.authority ∷ []))
    ok m
