-- ===== src/Mutations.antt =====
-- src/memory_core/mutations.py: schemas, mutations and the ledger that appends them. An int is a
-- natural number: the constructors refuse a negative version or revision. `json_loads` is a parameter:
-- the value of a text, `none` for one that is no JSON.
pub mod Ledger
use Prim.Native.Char.{code}
use Prim.Native.String
use Prim.Native.String.{len}
use mini_code_agent_langgrap.Prelude.{
  ℕ, suc, zero, ◌+◌, Bool, true, false, not, ◌&&◌, ◌||◌, List, [], ◌∷◌, Option, none, some, String,
  Result, ok, err, ◌==◌, eqb, ltb, leb, contains, concat, is_empty, strip, pos, if◌then◌else◌,
}
use mini_code_agent_langgrap.Prelude.Results.{◌>>=◌, ◌>>◌, raise_if, raise}
use mini_code_agent_langgrap.Prelude.Json.{
  Json, null, bool, int, float, str, arr, obj, Items, nil, cons, Fields, end, field,
}
use mini_code_agent_langgrap.Prelude.Library.{Library}

abbrev pub mutation_operations : List String
mutation_operations = "assert" ∷ "dispute" ∷ "withdraw" ∷ []

abbrev pub value_types : List String
value_types = "text" ∷ "number" ∷ "boolean" ∷ "object" ∷ "array" ∷ "any" ∷ []

abbrev pub authorities : List String
authorities = "none" ∷ "inform" ∷ "act" ∷ []

abbrev pub retention_classes : List String
retention_classes = "core" ∷ "durable" ∷ "episodic" ∷ "transient" ∷ []

-- `_AUTHORITY_RANK[authority]`
unfoldable pub authority_rank : String → Result ℕ
authority_rank a =
    if a == "none"
    then ok 0
    else if a == "inform"
    then ok 1
    else if a == "act"
    then ok 2
    else raise "KeyError" a

-- `_require_text`
unfoldable pub require_text : String → String → Result (Unit {0})
require_text name value =
    raise_if (is_empty (strip value)) "ValueError" (concat (name ∷ " must not be blank" ∷ []))

pub record MemoryFieldSchema : Type 0 where
  pub schema_id : String
  pub version : ℕ
  pub predicate : String
  pub value_type : String
  pub description : String
  pub max_authority : String
  pub retention_class : String

-- `MemoryFieldSchema(...)`
unfoldable pub memory_field_schema : MemoryFieldSchema → Result MemoryFieldSchema
memory_field_schema s = do
  require_text "schema id" s.schema_id
  require_text "schema predicate" s.predicate
  raise_if (ltb s.version 1) "ValueError" "schema version must be positive"
  raise_if (not (contains s.value_type value_types)) "ValueError"
      (concat ("unsupported memory value type: " ∷ s.value_type ∷ []))
  raise_if (not (contains s.max_authority authorities)) "ValueError"
      (concat ("unsupported maximum authority: " ∷ s.max_authority ∷ []))
  raise_if (not (contains s.retention_class retention_classes)) "ValueError"
      (concat ("unsupported retention class: " ∷ s.retention_class ∷ []))
  ok s

-- The type of a value that `json.loads` returns.
abbrev pub type_of : Json → String
type_of (str _) = "text"
type_of (int _) = "number"
type_of (float _) = "number"
type_of (bool _) = "boolean"
type_of (obj _) = "object"
type_of (arr _) = "array"
type_of null = ""

-- `matches[value_type]` of `validate`
unfoldable pub matches_type : String → Json → Result Bool
matches_type t v =
    if t == "any"
    then ok true
    else if contains t value_types
    then ok (type_of v == t)
    else raise "KeyError" t

pub record SourceRevision : Type 0 where
  pub event_id : String
  pub source_sha256 : String

pub record MemoryMutation : Type 0 where
  pub mutation_id : String
  pub stream_id : String
  pub revision : ℕ
  pub base_revision : ℕ
  pub operation : String
  pub entity_id : String
  pub predicate : String
  pub value_json : Option String
  pub schema_id : String
  pub schema_version : ℕ
  pub source_event_revisions : List SourceRevision
  pub authority : String
  pub recorded_at : String

abbrev is_hex : ℕ → Bool
is_hex c = (leb b'0' c && leb c b'9') || (leb b'a' c && leb c b'f')

all_hex : String → Bool
all_hex String.[] = true
all_hex (String.◌∷◌ c s) = is_hex (code c) && all_hex s

unfoldable pub check_sources : List SourceRevision → Result (Unit {0})
unfolding all_hex
check_sources [] = ok tt
check_sources (s ∷ rest) = do
  require_text "source event id" s.event_id
  raise_if (not (eqb (len s.source_sha256) 64) || not (all_hex s.source_sha256)) "ValueError"
      "source event revision must be a lowercase SHA-256"
  check_sources rest

-- The value must be there for an assertion, and JSON where it is there.
unfoldable pub check_value : Library → String → Option String → Result (Unit {0})
check_value lib operation none =
    raise_if (operation == "assert") "ValueError" "assert mutation requires a value"
check_value lib operation (some text) = elim (lib.json_loads text) [
  | none ↦ raise "ValueError" "mutation value must be valid JSON"
  | some _ ↦ ok tt
]

-- `MemoryMutation(...)`
unfoldable pub memory_mutation : Library → MemoryMutation → Result MemoryMutation
memory_mutation lib m = do
  require_text "mutation id" m.mutation_id
  require_text "stream id" m.stream_id
  require_text "entity id" m.entity_id
  require_text "predicate" m.predicate
  require_text "schema id" m.schema_id
  raise_if (ltb m.revision 1 || not (eqb m.revision (suc m.base_revision))) "ValueError"
      "mutation revision must immediately follow base revision"
  raise_if (not (contains m.operation mutation_operations)) "ValueError"
      (concat ("unsupported memory mutation: " ∷ m.operation ∷ []))
  raise_if (ltb m.schema_version 1) "ValueError" "schema version must be positive"
  raise_if (not (contains m.authority authorities)) "ValueError"
      (concat ("unsupported memory authority: " ∷ m.authority ∷ []))
  raise_if (elim m.source_event_revisions [ [] ↦ true | _ ∷ _ ↦ false ]) "ValueError"
      "mutation requires source event revisions"
  check_sources m.source_event_revisions
  check_value lib m.operation m.value_json
  ok m

-- The payload whose digest is the id of a mutation that `create` builds.
abbrev optional_text : Option String → Json
optional_text none = null
optional_text (some t) = str t

abbrev pub revision_items : List SourceRevision → Items
revision_items [] = nil
revision_items (s ∷ rest) =
    cons (arr (cons (str s.event_id) (cons (str s.source_sha256) nil))) (revision_items rest)

abbrev number : ℕ → Json
number n = int (pos n)

unfoldable pub mutation_payload : MemoryMutation → Fields
mutation_payload m = field "stream_id" (str m.stream_id) (
    field "revision" (number m.revision) (
      field "base_revision" (number m.base_revision) (
        field "operation" (str m.operation) (
          field "entity_id" (str m.entity_id) (
            field "predicate" (str m.predicate) (
              field "value_json" (optional_text m.value_json) (
                field "schema_id" (str m.schema_id) (
                  field "schema_version" (number m.schema_version) (
                    field "source_event_revisions" (arr (revision_items m.source_event_revisions)) (
                      field "authority" (str m.authority)
                        (field "recorded_at" (str m.recorded_at) end)))))))))))

-- `None if value is None else _canonical_json(value)`
unfoldable pub canonical_value : Library → Json → Option String
canonical_value lib null = none
canonical_value lib v = some (lib.canonical_json v)

-- `MemoryMutation.create`: the other fields are those of `m`; the revision follows the base revision,
-- the value is written in canonical form, and the id is the digest of the payload.
unfoldable pub create : Library → MemoryMutation → Json → Result MemoryMutation
unfolding mutation_payload canonical_value
create lib m value =
    let drafted : MemoryMutation = record m {
      revision = suc m.base_revision;
      value_json = canonical_value lib value;
    } in
    memory_mutation lib (record drafted {
      mutation_id = lib.sha256_hex (lib.canonical_json (obj (mutation_payload drafted)));
    })
