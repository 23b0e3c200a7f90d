-- ===== src/Mutations/Ledger.antt =====
-- `MutationLedger` of src/memory_core/mutations.py: the state, `append` and
-- `invalid_source_bindings`. A method that raises has not written to the ledger, so `append` returns
-- the ledger with its report. The dict of memories is a list in insertion order; the key of an item is
-- its entity and predicate. `compact` is not here: a ledger starts from the memories and the revision
-- of its snapshot.
pub mod Append
pub mod History
use mini_code_agent_langgrap.Prelude.{
  ℕ, suc, Bool, true, false, not, ◌&&◌, ◌||◌, List, [], ◌∷◌, ◌++◌, Option, none, some, String,
  Result, ok, err, ◌==◌, eqb, ltb, all, contains, concat, is_empty, decimal, if◌then◌else◌,
}
use mini_code_agent_langgrap.Prelude.Results.{◌>>=◌, ◌>>◌, raise_if, raise}
use mini_code_agent_langgrap.Prelude.Json.{Json}
use mini_code_agent_langgrap.Prelude.Library.{Library}
use mini_code_agent_langgrap.Workspace.{sorted_set}
use mini_code_agent_langgrap.Mutations.{
  MemoryFieldSchema, MemoryMutation, SourceRevision, authority_rank, require_text, matches_type,
}

pub record MaterializedMemory : Type 0 where
  pub entity_id : String
  pub predicate : String
  pub status : String
  pub value_json : Option String
  pub authority : String
  pub mutation_id : String
  pub source_event_revisions : List SourceRevision
  pub retention_class : String

pub record PostCondition : Type 0 where
  pub name : String
  pub passed : Bool
  pub detail : String

pub record MemoryCommitReport : Type 0 where
  pub mutation_id : String
  pub revision : ℕ
  pub outcome : String
  pub checks : List PostCondition

unfoldable pub successful : MemoryCommitReport → Bool
successful r =
    (r.outcome == "committed" || r.outcome == "already_committed") && all (λ c. c.passed) r.checks

abbrev is_memory : String → String → MaterializedMemory → Bool
is_memory entity predicate item = item.entity_id == entity && item.predicate == predicate

-- `state.get((entity_id, predicate))`
unfoldable pub get_memory : String → String → List MaterializedMemory → Option MaterializedMemory
get_memory entity predicate [] = none
get_memory entity predicate (item ∷ rest) =
    if is_memory entity predicate item then some item else get_memory entity predicate rest

-- `state[(item.entity_id, item.predicate)] = item`
unfoldable pub put_memory : MaterializedMemory → List MaterializedMemory → List MaterializedMemory
put_memory item [] = item ∷ []
put_memory item (old ∷ rest) =
    let more = put_memory item rest in
    if is_memory item.entity_id item.predicate old then item ∷ rest else old ∷ more

pub record MutationLedger : Type 0 where
  pub stream_id : String
  pub schemas : List MemoryFieldSchema
  pub state : List MaterializedMemory
  pub revision : ℕ
  pub mutations : List MemoryMutation
  pub mutation_ids : List String

abbrev is_schema : String → ℕ → String → MemoryFieldSchema → Bool
is_schema id version predicate s =
    s.schema_id == id && eqb s.version version && s.predicate == predicate

-- `self._schemas.get((schema_id, version, predicate))`
unfoldable pub get_schema : String → ℕ → String → List MemoryFieldSchema → Option MemoryFieldSchema
get_schema id version predicate [] = none
get_schema id version predicate (s ∷ rest) =
    if is_schema id version predicate s then some s else get_schema id version predicate rest

unfoldable pub has_duplicates : List MemoryFieldSchema → Bool
unfolding get_schema
has_duplicates [] = false
has_duplicates (s ∷ rest) = elim (get_schema s.schema_id s.version s.predicate rest) [
  | none ↦ has_duplicates rest
  | some _ ↦ true
]

abbrev pub empty_ledger : String → List MemoryFieldSchema → MutationLedger
empty_ledger stream schemas = record {
  stream_id = stream;
  schemas = schemas;
  state = [];
  revision = 0;
  mutations = [];
  mutation_ids = [];
}

-- `MutationLedger(stream_id, schemas)`, without a snapshot.
unfoldable pub new_ledger : String → List MemoryFieldSchema → Result MutationLedger
new_ledger stream schemas = do
  require_text "stream id" stream
  raise_if (has_duplicates schemas) "ValueError" "memory schemas must be unique"
  ok (empty_ledger stream schemas)

abbrev pub condition : String → Bool → String → PostCondition
condition name passed detail = record { name = name; passed = passed; detail = detail }

abbrev pub report : MemoryMutation → ℕ → String → List PostCondition → MemoryCommitReport
report m revision outcome checks = record {
  mutation_id = m.mutation_id;
  revision = revision;
  outcome = outcome;
  checks = checks;
}

abbrev rejected :
    MutationLedger
    → MemoryMutation
    → List PostCondition
    → Result (MemoryCommitReport × MutationLedger)
rejected l m checks = ok (report m l.revision "rejected" checks, l)

-- The status that an operation gives.
abbrev pub status_of : String → Result String
status_of operation =
    if operation == "assert"
    then ok "active"
    else if operation == "dispute"
    then ok "disputed"
    else if operation == "withdraw"
    then ok "withdrawn"
    else raise "KeyError" operation

abbrev previous_value : Option MaterializedMemory → Option String
previous_value none = none
previous_value (some item) = item.value_json

-- A mutation without a value keeps that of the memory it replaces.
abbrev pub kept_value : MemoryMutation → List MaterializedMemory → Option String
kept_value m state = elim m.value_json [
  | some text ↦ some text
  | none ↦ previous_value (get_memory m.entity_id m.predicate state)
]

abbrev pub materialized :
    MemoryMutation → MemoryFieldSchema → String → List MaterializedMemory → MaterializedMemory
materialized m schema status state = record {
  entity_id = m.entity_id;
  predicate = m.predicate;
  status = status;
  value_json = kept_value m state;
  authority = m.authority;
  mutation_id = m.mutation_id;
  source_event_revisions = m.source_event_revisions;
  retention_class = schema.retention_class;
}

-- Whether the item read back is that of the mutation.
abbrev reads_back : MemoryMutation → List MaterializedMemory → Bool
reads_back m state = elim (get_memory m.entity_id m.predicate state) [
  | none ↦ false
  | some item ↦ item.mutation_id == m.mutation_id
]

-- The part of `append` that writes.
unfoldable pub commit_mutation :
    MutationLedger
    → MemoryMutation
    → MemoryFieldSchema
    → Result (MemoryCommitReport × MutationLedger)
commit_mutation l m schema = do
  status ← status_of m.operation
  let state' : List MaterializedMemory = put_memory (materialized m schema status l.state) l.state
  let l' : MutationLedger = record l {
    state = state';
    mutations = l.mutations ++ (m ∷ []);
    mutation_ids = m.mutation_id ∷ l.mutation_ids;
    revision = m.revision;
  }
  ok (
    report m m.revision "committed" (
        condition "base_revision_matches" true ""
        ∷ condition "schema_resolved" true ""
        ∷ condition "schema_value_valid" true ""
        ∷ condition "authority_within_schema_limit" true ""
        ∷ condition "canonical_state_matches" (reads_back m state') ""
        ∷ []),
    l',
  )

-- `json.loads(mutation.value_json or "null")`
unfoldable pub loaded_value : Library → MemoryMutation → Result Json
loaded_value lib m =
    let text : String = elim m.value_json [
      | none ↦ "null"
      | some t ↦ if is_empty t then "null" else t
    ] in
    elim (lib.json_loads text) [ none ↦ raise "JSONDecodeError" text | some v ↦ ok v ]

-- Whether the value is of the schema's type; only an assertion is tested.
unfoldable pub value_fits : Library → MemoryMutation → MemoryFieldSchema → Result Bool
unfolding loaded_value
value_fits lib m schema =
    if not (m.operation == "assert")
    then ok true
    else loaded_value lib m >>= matches_type schema.value_type

-- `append` once the schema is found.
unfoldable pub append_under :
    Library
    → MutationLedger
    → MemoryMutation
    → MemoryFieldSchema
    → Result (MemoryCommitReport × MutationLedger)
unfolding commit_mutation value_fits
append_under lib l m schema = do
  rank ← authority_rank m.authority
  limit ← authority_rank schema.max_authority
  if ltb limit rank
      then rejected l m (
          condition "schema_resolved" true ""
          ∷ condition "authority_within_schema_limit" false
              (concat ("maximum authority is " ∷ schema.max_authority ∷ []))
          ∷ [])
      else (do
        fits ← value_fits lib m schema
        if fits
            then commit_mutation l m schema
            else rejected l m (
                condition "schema_resolved" true ""
                ∷ condition "schema_value_valid" false (
                    concat (
                      "predicate "
                      ∷ lib.repr schema.predicate
                      ∷ " requires "
                      ∷ schema.value_type
                      ∷ " values"
                      ∷ []))
                ∷ []))

unfoldable pub append :
    Library → MutationLedger → MemoryMutation → Result (MemoryCommitReport × MutationLedger)
unfolding append_under
append lib l m =
    if contains m.mutation_id l.mutation_ids
    then ok
        (report m l.revision "already_committed" (condition "idempotent_replay" true "" ∷ []), l)
    else if not (m.stream_id == l.stream_id)
    then raise "ValueError" "mutation belongs to another stream"
    else if not (eqb m.base_revision l.revision)
    then ok (
      report m l.revision "conflict" (
          condition "base_revision_matches" false
            (concat ("expected " ∷ decimal l.revision ∷ ", got " ∷ decimal m.base_revision ∷ []))
          ∷ []),
      l,
    )
    else elim (get_schema m.schema_id m.schema_version m.predicate l.schemas) [
      | none ↦ rejected l m (condition "schema_resolved" false "" ∷ [])
      | some schema ↦ append_under lib l m schema
    ]

-- `current_revisions.get(event_id) != digest`, for some source
unfoldable pub is_stale : (String → Option String) → List SourceRevision → Bool
is_stale current [] = false
is_stale current (s ∷ rest) =
    elim (current s.event_id) [ none ↦ true | some digest ↦ not (digest == s.source_sha256) ]
    || is_stale current rest

stale_ids : (String → Option String) → List MaterializedMemory → List String
unfolding is_stale
stale_ids current [] = []
stale_ids current (item ∷ rest) =
    let more = stale_ids current rest in
    if is_stale current item.source_event_revisions then item.mutation_id ∷ more else more

unfoldable pub invalid_source_bindings : MutationLedger → (String → Option String) → List String
unfolding stale_ids
invalid_source_bindings l current = sorted_set (stale_ids current l.state)
