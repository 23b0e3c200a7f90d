-- ===== src/Continuity/Retention/Plan.antt =====
-- The loop that makes room, and the decision of `plan_long_term_retention`.
pub mod Capacity
pub mod Spared
pub mod ProtectedIds
pub mod Protected
use mini_code_agent_langgrap.Prelude.{
  ℕ, ◌+◌, ◌-◌, ◌*◌, Bool, true, false, not, ◌&&◌, ◌||◌, List, [], ◌∷◌, ◌++◌, String, Result, ok,
  ◌==◌, ltb, leb, is_empty, strip, length, take, contains, filter, sort_by, if◌then◌else◌,
}
use mini_code_agent_langgrap.Prelude.Results.{◌>>=◌, ◌>>◌, raise_if}
use mini_code_agent_langgrap.Continuity.{
  Floats, ContinuityMemory, chars, is_active, record_ids, sum_chars, retention_rank, less_text,
  tuple_less, nat_key, text_key, float_key,
}
use mini_code_agent_langgrap.Continuity.Retention.{
  LongTermRetentionPolicy, RetentionDecision, has_duplicates, remove_id, protected_ids,
  candidate_less,
}

-- What the loop over the candidates changes.
pub record Room : Type 0 where
  pub retained_ids : List String
  pub retained_chars : ℕ
  pub retirements : List String
  pub compactions : List String

unfoldable pub fits : LongTermRetentionPolicy → ℕ → Room → Bool
fits p incoming_chars room =
    leb (length room.retained_ids + 1) p.max_active_records
    && leb (room.retained_chars + incoming_chars) p.max_active_chars

module _ {F : Type 0} where
  unfoldable pub is_compactable : ContinuityMemory F → Bool
  is_compactable m = m.retention_class == "episodic" && m.source_valid

  -- One round of the loop, for a candidate that must go.
  unfoldable pub take_out : ContinuityMemory F → Room → Room
  unfolding is_compactable
  take_out m room = record {
    retained_ids = remove_id m.record_id room.retained_ids;
    retained_chars = room.retained_chars - chars m;
    retirements =
        if is_compactable m then room.retirements else room.retirements ++ (m.record_id ∷ []);
    compactions =
        if is_compactable m then room.compactions ++ (m.record_id ∷ []) else room.compactions;
  }

  unfoldable pub make_room : LongTermRetentionPolicy → ℕ → List (ContinuityMemory F) → Room → Room
  unfolding fits take_out
  make_room p incoming_chars [] room = room
  make_room p incoming_chars (m ∷ ms) room =
      let rest = make_room p incoming_chars ms (take_out m room) in
      if fits p incoming_chars room then room else rest

  -- The loop that compacts more episodic candidates, up to `minimum`.
  unfoldable pub more_compactions : ℕ → List (ContinuityMemory F) → List String → List String
  more_compactions minimum [] ids = ids
  more_compactions minimum (m ∷ ms) ids =
      let same = more_compactions minimum ms ids in
      let added : List String = ids ++ (m.record_id ∷ []) in
      let longer = more_compactions minimum ms added in
      if is_compactable m && not (contains m.record_id ids)
      then if leb minimum (length added) then added else longer
      else same

  -- A decision that admits nothing.
  unfoldable pub refusal :
      List (ContinuityMemory F) → String → List String → List String → RetentionDecision
  refusal active reason compact protected = record {
    admit = false;
    reason = reason;
    retire_record_ids = [];
    compact_record_ids = compact;
    protected_record_ids = protected;
    projected_records = length active;
    projected_chars = sum_chars active;
  }

  -- The first room: the records whose source is valid.
  unfoldable pub first_room : List (ContinuityMemory F) → Room
  first_room active =
      let invalid_ids : List String = record_ids (filter (λ m. not m.source_valid) active) in
      let retained_ids : List String =
        filter (λ i. not (contains i invalid_ids)) (record_ids active) in
      record {
        retained_ids = retained_ids;
        retained_chars = sum_chars (filter (λ m. contains m.record_id retained_ids) active);
        retirements = sort_by less_text invalid_ids;
        compactions = [];
      }

  -- The decision, from the room that the loop leaves.
  unfoldable pub settle_room :
      LongTermRetentionPolicy
      → List (ContinuityMemory F)
      → ℕ
      → List (ContinuityMemory F)
      → List String
      → Room
      → RetentionDecision
  unfolding refusal fits more_compactions
  settle_room p active incoming_chars candidates protected room =
      let protected_sorted : List String = sort_by less_text protected in
      if not (fits p incoming_chars room)
      then refusal active "protected_capacity_exhausted" [] protected_sorted
      else elim room.compactions [
        | [] ↦ record {
          admit = true;
          reason = elim room.retirements [
            | [] ↦ "fits"
            | _ ∷ _ ↦ "retire_invalid_or_lower_continuity_utility"
          ];
          retire_record_ids = room.retirements;
          compact_record_ids = [];
          protected_record_ids = protected_sorted;
          projected_records = length room.retained_ids + 1;
          projected_chars = room.retained_chars + incoming_chars;
        }
        | _ ∷ _ ↦
            let minimum : ℕ = if ltb p.max_active_records (length active + 1) then 2 else 1 in
            let compactions : List String =
              if ltb (length room.compactions) minimum
              then more_compactions minimum candidates room.compactions
              else room.compactions in
            if ltb (length compactions) minimum
            then refusal active "protected_capacity_exhausted" [] protected_sorted
            else refusal active "checkpoint_compaction_required"
                (take p.checkpoint_batch_records compactions) protected_sorted
      ]

module _ {F : Type 0} (floats : Floats F) where
  -- The records that may go, the least useful first.
  unfoldable pub candidates_of :
      List (ContinuityMemory F) → List String → ℕ → List (ContinuityMemory F)
  unfolding candidate_less first_room
  candidates_of active protected now_ns = sort_by (candidate_less floats now_ns) (
      filter
        (λ m.
          not (contains m.record_id protected)
          && contains m.record_id (first_room active).retained_ids)
        active)

  unfoldable pub plan_capacity :
      List (ContinuityMemory F)
      → ContinuityMemory F
      → LongTermRetentionPolicy
      → ℕ
      → RetentionDecision
  unfolding protected_ids candidates_of make_room settle_room
  plan_capacity active incoming p now_ns =
      let protected : List String = protected_ids floats active p in
      let candidates : List (ContinuityMemory F) = candidates_of active protected now_ns in
      settle_room p active (chars incoming) candidates protected
        (make_room p (chars incoming) candidates (first_room active))

  -- The plan for active records whose ids differ.
  unfoldable pub plan_active :
      List (ContinuityMemory F)
      → ContinuityMemory F
      → LongTermRetentionPolicy
      → ℕ
      → RetentionDecision
  unfolding plan_capacity refusal
  plan_active active incoming p now_ns =
      if not incoming.source_valid
      then refusal active "incoming_source_invalid" [] []
      else if not (is_active incoming)
      then refusal active "incoming_not_active" [] []
      else if ltb p.max_active_chars (chars incoming)
      then refusal active "incoming_exceeds_capacity" [] []
      else plan_capacity active incoming p now_ns

  -- `plan_long_term_retention`
  unfoldable pub plan_long_term_retention :
      List (ContinuityMemory F)
      → ContinuityMemory F
      → LongTermRetentionPolicy
      → ℕ
      → Result RetentionDecision
  unfolding has_duplicates plan_active
  plan_long_term_retention records incoming p now_ns = do
    let active : List (ContinuityMemory F) = filter is_active records
    raise_if (has_duplicates (record_ids active)) "ValueError"
        "continuity record ids must be unique"
    raise_if (contains incoming.record_id (record_ids active)) "ValueError"
        "incoming continuity record id already exists"
    ok (plan_active active incoming p now_ns)
