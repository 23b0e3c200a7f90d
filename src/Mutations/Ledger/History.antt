-- ===== src/Mutations/Ledger/History.antt =====
-- What holds of a ledger after its appends.
use mini_code_agent_langgrap.Prelude.{
  ◌≡◌, refl, sym, ◌∙◌, ap, subst, ℕ, suc, ◌≤◌, true, false, ◌&&◌, List, [], ◌∷◌, ◌++◌, length, some,
  String, ok, ◌==◌, eq_iff, eq_refl, contains, arith, Bool-cases, inl, inr,
}
use mathlib.Core.List.{append_assoc}
use mini_code_agent_langgrap.Prelude.Results.{>>=-eq-ok, raise_if}
use mini_code_agent_langgrap.Prelude.Library.{Library}
use mini_code_agent_langgrap.Mutations.{
  MemoryFieldSchema, MemoryMutation, authority_rank, require_text,
}
use mini_code_agent_langgrap.Mutations.Ledger.{
  MaterializedMemory, MemoryCommitReport, MutationLedger, get_memory, get_schema, put_memory,
  append, materialized, status_of, report, condition, new_ledger, empty_ledger, has_duplicates,
}
use mini_code_agent_langgrap.Mutations.Ledger.Append.{
  Committed, append-cases, get_memory-put_memory, get_memory-put_memory_other,
}

-- After an append that reports a commit, the mutation's entity and predicate hold its status, its
-- authority and its id, every other key holds what it held, and a second append of the same mutation
-- reports `already_committed` and changes nothing.
pub append-committed :
    (lib : Library) (l : MutationLedger) (m : MemoryMutation) (r : MemoryCommitReport)
    (l' : MutationLedger)
    → append lib l m ≡ ok (r, l')
    → r.outcome ≡ "committed"
    → ((item : MaterializedMemory) × (get_memory m.entity_id m.predicate l'.state ≡ some item)
        × (status_of m.operation ≡ ok item.status)
        × (item.authority ≡ m.authority)
        × (item.mutation_id ≡ m.mutation_id))
      × ((entity predicate : String)
          → (m.entity_id == entity && m.predicate == predicate) ≡ false
          → get_memory entity predicate l'.state ≡ get_memory entity predicate l.state)
      × (append lib l' m
          ≡ ok (
            report m l'.revision "already_committed" (condition "idempotent_replay" true "" ∷ []),
            l',
          ))
unfolding append
append-committed lib l m r l' h outcome = elim (append-cases lib l m h) [
  | inl (_, other) ↦ cc
  | inr (_, c) ↦
      let item : MaterializedMemory = materialized m c.schema c.status l.state in
      let state_eq : l'.state ≡ put_memory item l.state = ap (λ x. x.state) c.after_eq in
      let ids_eq : l'.mutation_ids ≡ m.mutation_id ∷ l.mutation_ids =
        ap (λ x. x.mutation_ids) c.after_eq in
      let same = eq_refl m.mutation_id in
      let replayed : contains m.mutation_id l'.mutation_ids ≡ true = ground arith in
      (
        (
          item,
          ap (get_memory m.entity_id m.predicate) state_eq ∙ get_memory-put_memory item l.state,
          c.status_eq,
          refl,
          refl,
        ),
        (λ entity predicate other.
            ap (get_memory entity predicate) state_eq
            ∙ get_memory-put_memory_other item l.state entity predicate other),
        (cc),
      )
]

-- The ledgers that appends reach from an empty one, by mutations whose revision follows their base.
pub data Reachable (lib : Library) : MutationLedger → Type 0 where
  start :
      (stream : String) (schemas : List MemoryFieldSchema) (l : MutationLedger)
      → new_ledger stream schemas ≡ ok l
      → Reachable lib l
  step :
      (l : MutationLedger) (m : MemoryMutation) (r : MemoryCommitReport) (l' : MutationLedger)
      → Reachable lib l
      → m.revision ≡ suc m.base_revision
      → append lib l m ≡ ok (r, l')
      → Reachable lib l'

-- The memory was made by one of the mutations, and its authority, which is that mutation's, is within
-- the limit of the schema with the id and the version that the mutation names.
pub record WithinLimit (schemas : List MemoryFieldSchema) (mutations : List MemoryMutation)
    (item : MaterializedMemory) : Type 0 where
  pub earlier : List MemoryMutation
  pub mutation : MemoryMutation
  pub later : List MemoryMutation
  pub logged : mutations ≡ earlier ++ (mutation ∷ later)
  pub mutation_eq : item.mutation_id ≡ mutation.mutation_id
  pub entity_eq : item.entity_id ≡ mutation.entity_id
  pub predicate_eq : item.predicate ≡ mutation.predicate
  pub authority_eq : item.authority ≡ mutation.authority
  pub schema : MemoryFieldSchema
  pub resolved :
      get_schema mutation.schema_id mutation.schema_version mutation.predicate schemas ≡ some schema
  pub rank : ℕ
  pub limit : ℕ
  pub rank_eq : authority_rank item.authority ≡ ok rank
  pub limit_eq : authority_rank schema.max_authority ≡ ok limit
  pub within : rank ≤ limit

-- The revision counts the mutations, and every memory is within the limit of its schema.
pub record IsWellFormed (l : MutationLedger) : Type 0 where
  pub revision_eq : l.revision ≡ length l.mutations
  pub authorised :
      (entity predicate : String) (item : MaterializedMemory)
      → get_memory entity predicate l.state ≡ some item
      → WithinLimit l.schemas l.mutations item

-- One more mutation does not change which one made a memory.
WithinLimit-snoc :
    (schemas : List MemoryFieldSchema) (mutations : List MemoryMutation) (m : MemoryMutation)
    (item : MaterializedMemory)
    → WithinLimit schemas mutations item
    → WithinLimit schemas (mutations ++ (m ∷ [])) item
WithinLimit-snoc schemas mutations m item h = record {
  earlier = h.earlier;
  mutation = h.mutation;
  later = h.later ++ (m ∷ []);
  logged =
      ap (λ l. l ++ (m ∷ [])) h.logged ∙ append_assoc h.earlier (h.mutation ∷ h.later) (m ∷ []);
  mutation_eq = h.mutation_eq;
  entity_eq = h.entity_eq;
  predicate_eq = h.predicate_eq;
  authority_eq = h.authority_eq;
  schema = h.schema;
  resolved = h.resolved;
  rank = h.rank;
  limit = h.limit;
  rank_eq = h.rank_eq;
  limit_eq = h.limit_eq;
  within = h.within;
}

length-snoc : {A : Type 0} (xs : List A) (x : A) → length (xs ++ (x ∷ [])) ≡ suc (length xs)
length-snoc [] x = refl
length-snoc (y ∷ ys) x = ap suc (length-snoc ys x)

new_ledger-IsWellFormed :
    (stream : String) (schemas : List MemoryFieldSchema) (l : MutationLedger)
    → new_ledger stream schemas ≡ ok l
    → IsWellFormed l
unfolding new_ledger get_memory
new_ledger-IsWellFormed stream schemas l h =
    let (_, _, h1) = >>=-eq-ok (require_text "stream id" stream) _ h in
    let (_, _, h2) = >>=-eq-ok (raise_if (has_duplicates schemas) _ _) _ h1 in
    let e : empty_ledger stream schemas ≡ l = cc in
    subst IsWellFormed e
      (record { revision_eq = refl; authorised = λ entity predicate item found. cc })

step-authorised :
    (l : MutationLedger) (m : MemoryMutation) (l' : MutationLedger)
    → Committed l m l'
    → IsWellFormed l
    → (entity predicate : String) (item : MaterializedMemory)
    → get_memory entity predicate l'.state ≡ some item
    → WithinLimit l'.schemas l'.mutations item
step-authorised l m l' c wf entity predicate item found =
    let made : MaterializedMemory = materialized m c.schema c.status l.state in
    let state_eq : l'.state ≡ put_memory made l.state = ap (λ x. x.state) c.after_eq in
    subst (λ x. WithinLimit x.schemas x.mutations item) (sym c.after_eq)
      (elim (Bool-cases (m.entity_id == entity && m.predicate == predicate)) [
        | inl same ↦
            let a = eq_iff m.entity_id entity in
            let b = eq_iff m.predicate predicate in
            let entity_eq : m.entity_id ≡ entity = ground arith in
            let predicate_eq : m.predicate ≡ predicate = ground arith in
            let got : get_memory m.entity_id m.predicate l'.state ≡ some made =
              ap (get_memory m.entity_id m.predicate) state_eq
              ∙ get_memory-put_memory made l.state in
            let made_eq : made ≡ item = cc in
            subst (WithinLimit l.schemas (l.mutations ++ (m ∷ []))) made_eq (record {
              earlier = l.mutations;
              mutation = m;
              later = [];
              logged = refl;
              mutation_eq = refl;
              entity_eq = refl;
              predicate_eq = refl;
              authority_eq = refl;
              schema = c.schema;
              resolved = c.resolved;
              rank = c.rank;
              limit = c.limit;
              rank_eq = c.rank_eq;
              limit_eq = c.limit_eq;
              within = c.authorised;
            })
        | inr other ↦ WithinLimit-snoc l.schemas l.mutations m item (
            wf.authorised entity predicate item (
              sym (
                ap (get_memory entity predicate) state_eq
                ∙ get_memory-put_memory_other made l.state entity predicate other)
              ∙ found))
      ])

-- Every ledger that appends of mutations whose revision follows their base revision reach from an
-- empty one is well formed: its revision is the number of its
-- mutations, and every memory has the id, the entity, the predicate and the authority of one of its
-- mutations, where this authority is not above the limit of the ledger's schema with the schema id, the
-- version and the predicate that this mutation names.
pub Reachable-IsWellFormed : (lib : Library) (l : MutationLedger) → Reachable lib l → IsWellFormed l
Reachable-IsWellFormed lib _ (start stream schemas l h) = new_ledger-IsWellFormed stream schemas l h
Reachable-IsWellFormed lib _ (step l m r l' before next h) =
    let wf = Reachable-IsWellFormed lib l before in
    elim (append-cases lib l m h) [
      | inl (same, _) ↦ subst IsWellFormed (sym same) wf
      | inr (_, c) ↦ record {
        revision_eq =
            ap (λ x. x.revision) c.after_eq
            ∙ next
            ∙ ap suc (c.base_eq ∙ wf.revision_eq)
            ∙ sym (ap (λ x. length x.mutations) c.after_eq ∙ length-snoc l.mutations m);
        authorised = step-authorised l m l' c wf;
      }
    ]
