-- ===== src/Mutations/Ledger/Append.antt =====
-- What one `append` does to the ledger.
use mini_code_agent_langgrap.Prelude.{
  ◌≡◌, refl, subst, ℕ, ◌≤◌, Bool, true, false, not, ◌&&◌, List, [], ◌∷◌, ◌++◌, some, String, Result,
  ok, ◌==◌, eq_iff, eq_refl, eqb, ltb, contains, if◌then◌else◌, arith, Option-cases, inl, inr, ◌⊎◌,
}
use mini_code_agent_langgrap.Prelude.Results.{>>=-eq-ok}
use mini_code_agent_langgrap.Prelude.Library.{Library}
use mini_code_agent_langgrap.Mutations.{MemoryFieldSchema, MemoryMutation, authority_rank}
use mini_code_agent_langgrap.Mutations.Ledger.{
  MaterializedMemory, MemoryCommitReport, MutationLedger, get_memory, put_memory, get_schema,
  commit_mutation, value_fits, append_under, append, status_of, materialized, report, condition,
  PostCondition,
}

-- Lookup after an insertion.
pub get_memory-put_memory :
    (item : MaterializedMemory) (state : List MaterializedMemory)
    → get_memory item.entity_id item.predicate (put_memory item state) ≡ some item
unfolding get_memory put_memory
get_memory-put_memory item [] =
    let a = eq_refl item.entity_id in let b = eq_refl item.predicate in ground arith
get_memory-put_memory item (old ∷ rest) =
    let ih = get_memory-put_memory item rest in
    let a = eq_refl item.entity_id in let b = eq_refl item.predicate in ground arith

pub get_memory-put_memory_other :
    (item : MaterializedMemory) (state : List MaterializedMemory) (entity predicate : String)
    → (item.entity_id == entity && item.predicate == predicate) ≡ false
    → get_memory entity predicate (put_memory item state) ≡ get_memory entity predicate state
unfolding get_memory put_memory
get_memory-put_memory_other item [] entity predicate h = ground arith
get_memory-put_memory_other item (old ∷ rest) entity predicate h =
    let ih = get_memory-put_memory_other item rest entity predicate h in
    ground (
      arith,
      eq_iff old.entity_id entity,
      eq_iff old.predicate predicate,
      eq_iff old.entity_id item.entity_id,
      eq_iff old.predicate item.predicate,
    )

-- What an appended mutation leaves: the ledger `after`, when the mutation was committed to `before`.
pub record Committed (before : MutationLedger) (m : MemoryMutation) (after : MutationLedger)
    : Type 0 where
  pub schema : MemoryFieldSchema
  pub status : String
  pub stream_eq : m.stream_id ≡ before.stream_id
  pub base_eq : m.base_revision ≡ before.revision
  pub resolved : get_schema m.schema_id m.schema_version m.predicate before.schemas ≡ some schema
  pub rank : ℕ
  pub limit : ℕ
  pub rank_eq : authority_rank m.authority ≡ ok rank
  pub limit_eq : authority_rank schema.max_authority ≡ ok limit
  pub authorised : rank ≤ limit
  pub status_eq : status_of m.operation ≡ ok status
  pub after_eq : after ≡ record before {
    state = put_memory (materialized m schema status before.state) before.state;
    mutations = before.mutations ++ (m ∷ []);
    mutation_ids = m.mutation_id ∷ before.mutation_ids;
    revision = m.revision;
  }

module _ (lib : Library) (l : MutationLedger) (m : MemoryMutation) where
  commit_mutation-ok :
      (schema : MemoryFieldSchema) {r : MemoryCommitReport} {l' : MutationLedger}
      → commit_mutation l m schema ≡ ok (r, l')
      → (r.outcome ≡ "committed")
        × (status : String) × (status_of m.operation ≡ ok status)
        × (l' ≡ record l {
          state = put_memory (materialized m schema status l.state) l.state;
          mutations = l.mutations ++ (m ∷ []);
          mutation_ids = m.mutation_id ∷ l.mutation_ids;
          revision = m.revision;
        })
  unfolding commit_mutation
  commit_mutation-ok schema h =
      let (status, e, h1) = >>=-eq-ok (status_of m.operation) _ h in (cc, status, e, cc)

  -- The ways an append ends that return a report.
  pub data Ends (r : MemoryCommitReport) (l' : MutationLedger) : Type 0 where
    left : l' ≡ l → (r.outcome == "committed") ≡ false → Ends r l'
    wrote :
        (schema : MemoryFieldSchema) (rank limit : ℕ)
        → get_schema m.schema_id m.schema_version m.predicate l.schemas ≡ some schema
        → m.stream_id ≡ l.stream_id
        → m.base_revision ≡ l.revision
        → authority_rank m.authority ≡ ok rank
        → authority_rank schema.max_authority ≡ ok limit
        → rank ≤ limit
        → commit_mutation l m schema ≡ ok (r, l')
        → Ends r l'

  if-ends :
      {P : Type 0} {A : Type 0} (b : Bool) {x y : A} {z : A}
      → (if b then x else y) ≡ z
      → (b ≡ true → x ≡ z → P)
      → (b ≡ false → y ≡ z → P)
      → P
  if-ends true h f g = f refl h
  if-ends false h f g = g refl h

  abbrev reply : MemoryCommitReport → MutationLedger → Result (MemoryCommitReport × MutationLedger)
  reply r after = ok (r, after)

  refused :
      (revision : ℕ) (outcome : String) (checks : List PostCondition) {r : MemoryCommitReport}
      {l' : MutationLedger}
      → (outcome == "committed") ≡ false
      → reply (report m revision outcome checks) l ≡ reply r l'
      → Ends r l'
  refused revision outcome checks {r = r} h e =
      let same : report m revision outcome checks ≡ r = cc in
      left (cc) (subst (λ x. (x.outcome == "committed") ≡ false) same h)

  append_under-Ends :
      (schema : MemoryFieldSchema) {r : MemoryCommitReport} {l' : MutationLedger}
      → get_schema m.schema_id m.schema_version m.predicate l.schemas ≡ some schema
      → m.stream_id ≡ l.stream_id
      → m.base_revision ≡ l.revision
      → append_under lib l m schema ≡ ok (r, l')
      → Ends r l'
  unfolding append_under
  append_under-Ends schema resolved s b h =
      let (rank, e, h1) = >>=-eq-ok (authority_rank m.authority) _ h in
      let (limit, e', h2) = >>=-eq-ok (authority_rank schema.max_authority) _ h1 in
      if-ends (ltb limit rank) h2 (λ _ h3. refused l.revision "rejected" _ refl h3)
        (λ within h3.
          let (fits, _, h4) = >>=-eq-ok (value_fits lib m schema) _ h3 in
          if-ends fits h4 (λ _ h5. wrote schema rank limit resolved s b e e' (ground arith) h5)
            (λ _ h5. refused l.revision "rejected" _ refl h5))

  append-Ends :
      {r : MemoryCommitReport} {l' : MutationLedger} → append lib l m ≡ ok (r, l') → Ends r l'
  unfolding append
  append-Ends h =
      if-ends (contains m.mutation_id l.mutation_ids) h
        (λ _ h1. refused l.revision "already_committed" _ refl h1)
        (λ _ h1.
          if-ends (not (m.stream_id == l.stream_id)) h1 (λ _ h2. cc)
            (λ same h2.
              if-ends (not (eqb m.base_revision l.revision)) h2
                (λ _ h3. refused l.revision "conflict" _ refl h3)
                (λ next h3.
                  elim (Option-cases
                    (get_schema m.schema_id m.schema_version m.predicate l.schemas)) [
                      | inl e ↦
                          refused l.revision "rejected" (condition "schema_resolved" false "" ∷ [])
                            refl (cc)
                      | inr (schema, e) ↦
                          append_under-Ends schema e
                            (ground (arith, eq_iff m.stream_id l.stream_id)) (ground arith) (cc)
                    ])))

  -- A report is either not of a commit, and the ledger is as it was, or of a commit.
  pub append-cases :
      {r : MemoryCommitReport} {l' : MutationLedger}
      → append lib l m ≡ ok (r, l')
      → ((l' ≡ l) × ((r.outcome == "committed") ≡ false))
        ⊎ ((r.outcome ≡ "committed") × Committed l m l')
  append-cases {r = r} {l' = l'} h = of_ends (append-Ends h)
    where
      of_ends :
          Ends r l'
          → ((l' ≡ l) × ((r.outcome == "committed") ≡ false))
            ⊎ ((r.outcome ≡ "committed") × Committed l m l')
      of_ends (left same outcome) = inl (same, outcome)
      of_ends (wrote schema rank limit resolved s b e e' within written) =
          let (outcome, status, status_eq, after) = commit_mutation-ok schema written in
          inr (
            outcome,
            record {
              schema = schema;
              status = status;
              stream_eq = s;
              base_eq = b;
              resolved = resolved;
              rank = rank;
              limit = limit;
              rank_eq = e;
              limit_eq = e';
              authorised = within;
              status_eq = status_eq;
              after_eq = after;
            },
          )
