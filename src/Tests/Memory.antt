-- ===== src/Tests/Memory.antt =====
-- A ledger with one schema, a mutation appended to it, and records that are retired.
use mini_code_agent_langgrap.Prelude.{
  ◌≡◌, refl, ℕ, true, false, ◌&&◌, List, [], ◌∷◌, ◌++◌, map, some, String, ok, ◌==◌, strip,
}
use mini_code_agent_langgrap.Mutations.{MemoryFieldSchema, MemoryMutation, authority_rank}
use mini_code_agent_langgrap.Mutations.Ledger.{
  MaterializedMemory, MemoryCommitReport, MutationLedger, PostCondition, empty_ledger, get_memory,
  put_memory, get_schema, has_duplicates, new_ledger, status_of, loaded_value, value_fits,
  commit_mutation, append_under, append, report, condition,
}
use mini_code_agent_langgrap.Mutations.Ledger.History.{
  append-committed, start, step, IsWellFormed, Reachable-IsWellFormed,
}
use mini_code_agent_langgrap.Mutations.{matches_type, require_text}
use mini_code_agent_langgrap.Authority.{
  any_unsupported, minimum_rank, validate_derived_authority, IsBelow,
  validate_derived_authority-IsBelow,
}
use mini_code_agent_langgrap.Lifecycle.{
  CapacityPolicy, LifecycleRecord, oldest_first, select_retirements,
}
use mini_code_agent_langgrap.Lifecycle.Retire.{
  IsOldestFirst, IsShortest, select_retirements-IsShortest,
}
use mini_code_agent_langgrap.Tests.Transaction.{library}

abbrev schema : MemoryFieldSchema
schema = record {
  schema_id = "preference";
  version = 1;
  predicate = "editor";
  value_type = "text";
  description = "";
  max_authority = "inform";
  retention_class = "durable";
}

abbrev mutation : MemoryMutation
mutation = record {
  mutation_id = "m1";
  stream_id = "s";
  revision = 1;
  base_revision = 0;
  operation = "assert";
  entity_id = "user";
  predicate = "editor";
  value_json = some "vim";
  schema_id = "preference";
  schema_version = 1;
  source_event_revisions = [];
  authority = "inform";
  recorded_at = "";
}

abbrev before : MutationLedger
before = empty_ledger "s" (schema ∷ [])

abbrev item : MaterializedMemory
item = record {
  entity_id = "user";
  predicate = "editor";
  status = "active";
  value_json = some "vim";
  authority = "inform";
  mutation_id = "m1";
  source_event_revisions = [];
  retention_class = "durable";
}

abbrev after : MutationLedger
after = record before {
  state = item ∷ [];
  revision = 1;
  mutations = mutation ∷ [];
  mutation_ids = "m1" ∷ [];
}

abbrev passed : String → PostCondition
passed name = condition name true ""

abbrev committed_report : MemoryCommitReport
committed_report = report mutation 1 "committed" (
    passed "base_revision_matches"
    ∷ passed "schema_resolved"
    ∷ passed "schema_value_valid"
    ∷ passed "authority_within_schema_limit"
    ∷ passed "canonical_state_matches"
    ∷ [])

append-returns : append library before mutation ≡ ok (committed_report, after)
unfolding append append_under authority_rank value_fits loaded_value matches_type commit_mutation
    put_memory get_memory get_schema
append-returns = refl

append-committed_example :
    ((made : MaterializedMemory) × (get_memory "user" "editor" after.state ≡ some made)
      × (status_of "assert" ≡ ok made.status)
      × (made.authority ≡ "inform")
      × (made.mutation_id ≡ "m1"))
    × ((entity predicate : String)
        → ("user" == entity && "editor" == predicate) ≡ false
        → get_memory entity predicate after.state ≡ get_memory entity predicate before.state)
    × (append library after mutation
        ≡ ok (
          report mutation 1 "already_committed" (condition "idempotent_replay" true "" ∷ []),
          after,
        ))
append-committed_example =
    append-committed library before mutation committed_report after append-returns refl

new_ledger-returns : new_ledger "s" (schema ∷ []) ≡ ok before
unfolding new_ledger require_text has_duplicates get_schema strip
new_ledger-returns = refl

Reachable-IsWellFormed_example : IsWellFormed after
Reachable-IsWellFormed_example = Reachable-IsWellFormed library after (
    step before mutation committed_report after (start "s" (schema ∷ []) before new_ledger-returns)
      refl append-returns)

abbrev old_record : LifecycleRecord
old_record = record { record_id = "old"; recorded_at_ns = 1; chars = 10 }

abbrev new_record : LifecycleRecord
new_record = record { record_id = "new"; recorded_at_ns = 2; chars = 10 }

abbrev policy : CapacityPolicy
policy = record { max_active_records_per_scope = 2; max_active_chars_per_scope = 100 }

select_retirements-IsShortest_example :
    IsOldestFirst (oldest_first (new_record ∷ old_record ∷ []))
    × (retired kept : List LifecycleRecord) × (oldest_first (new_record ∷ old_record ∷ [])
        ≡ retired ++ kept)
    × (select_retirements (new_record ∷ old_record ∷ []) 5 policy ≡ map (λ r. r.record_id) retired)
    × IsShortest policy 5 retired kept
select_retirements-IsShortest_example =
    select_retirements-IsShortest (new_record ∷ old_record ∷ []) 5 policy

derived-admitted : validate_derived_authority "inform" ("act" ∷ "inform" ∷ []) ≡ ok tt
unfolding validate_derived_authority authority_rank any_unsupported minimum_rank
derived-admitted = refl

validate_derived_authority-IsBelow_example :
    (rank : ℕ) × (authority_rank "inform" ≡ ok rank) × IsBelow rank ("act" ∷ "inform" ∷ [])
validate_derived_authority-IsBelow_example =
    validate_derived_authority-IsBelow "inform" "act" ("inform" ∷ []) derived-admitted
