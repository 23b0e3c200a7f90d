-- ===== src/Continuity/Recall.antt =====
-- `select_continuity_context` and `retention_class_counts` of src/memory_core/continuity.py.
pub mod Budget
pub mod Complete
use mini_code_agent_langgrap.Prelude.{
  ℕ, suc, ◌+◌, Bool, true, false, not, ◌&&◌, ◌||◌, List, [], ◌∷◌, ◌++◌, String, Result, ok, ◌==◌,
  ltb, leb, length, concat, contains, filter, sort_by, if◌then◌else◌, map,
}
use mini_code_agent_langgrap.Prelude.Results.{◌>>=◌, ◌>>◌, raise_if}
use mini_code_agent_langgrap.Continuity.{
  Floats, ContinuityMemory, chars, is_active, record_ids, retention_rank, tuple_less, nat_key,
  text_key, float_key, retention_classes,
}

pub record ContinuityRecallPolicy : Type 0 where
  pub max_items : ℕ
  pub max_chars : ℕ
  pub include_durable : Bool

-- `ContinuityRecallPolicy(...)`
unfoldable pub continuity_recall_policy : ContinuityRecallPolicy → Result ContinuityRecallPolicy
continuity_recall_policy p =
    raise_if (ltb p.max_items 1 || ltb p.max_chars 1) "ValueError"
      "continuity recall budgets must be positive"
    >> ok p

-- `RecallItem`, whose score is not set here.
pub record RecallItem : Type 0 where
  pub text : String
  pub kind : String
  pub evidence_refs : List String
  pub authority : String

pub record ContinuitySelection : Type 0 where
  pub items : List RecallItem
  pub selected_record_ids : List String
  pub omitted_core_record_ids : List String
  pub context_chars : ℕ
  pub requires_compaction : Bool

-- `bool(ids)`
abbrev pub any_id : List String → Bool
any_id [] = false
any_id (_ ∷ _) = true

module _ {F : Type 0} where
  abbrev is_core : ContinuityMemory F → Bool
  is_core m = m.retention_class == "core"

  unfoldable pub is_eligible : ContinuityRecallPolicy → ContinuityMemory F → Bool
  is_eligible p m =
      is_active m
      && (m.source_valid
          && (m.retention_class == "core" || (p.include_durable && m.retention_class == "durable")))

  abbrev pub pinned_rank : ContinuityMemory F → ℕ
  pinned_rank m = if m.pinned then 1 else 0

  -- `1 if selected else 0`
  abbrev pub separator : List (ContinuityMemory F) → ℕ
  separator [] = 0
  separator (_ ∷ _) = 1

  unfoldable pub has_place :
      ContinuityRecallPolicy → List (ContinuityMemory F) → ℕ → ContinuityMemory F → Bool
  has_place p selected context_chars m =
      not (leb p.max_items (length selected))
      && not (ltb p.max_chars (context_chars + separator selected + chars m))

  -- The loop over the eligible records: those selected, and the characters that they take.
  unfoldable pub select_loop :
      ContinuityRecallPolicy
      → List (ContinuityMemory F)
      → List (ContinuityMemory F)
      → ℕ
      → List (ContinuityMemory F) × ℕ
  unfolding has_place
  select_loop p [] selected context_chars = (selected, context_chars)
  select_loop p (m ∷ ms) selected context_chars =
      let passed = select_loop p ms selected context_chars in
      let taken =
        select_loop p ms (selected ++ (m ∷ [])) (context_chars + (separator selected + chars m)) in
      if has_place p selected context_chars m then taken else passed

  abbrev pub recall_item : ContinuityMemory F → RecallItem
  recall_item m = record {
    text = m.text;
    kind = concat ("continuity:" ∷ m.retention_class ∷ []);
    evidence_refs = m.evidence_refs;
    authority = m.authority;
  }

  unfoldable pub count_class : String → List (ContinuityMemory F) → ℕ
  count_class name [] = 0
  count_class name (m ∷ ms) =
      let rest = count_class name ms in
      if is_active m && m.retention_class == name then suc rest else rest

  -- `retention_class_counts`
  unfoldable pub retention_class_counts : List (ContinuityMemory F) → List (String × ℕ)
  unfolding count_class
  retention_class_counts records = map (λ name. (name, count_class name records)) retention_classes

module _ {F : Type 0} (floats : Floats F) where
  -- The order of the eligible records. A key that the source negates is compared the other way round.
  unfoldable pub recall_less : ContinuityMemory F → ContinuityMemory F → Bool
  recall_less a b = tuple_less (
      nat_key (pinned_rank b) (pinned_rank a)
      ∷ nat_key (retention_rank b.retention_class) (retention_rank a.retention_class)
      ∷ float_key floats b.importance a.importance
      ∷ float_key floats b.confidence a.confidence
      ∷ nat_key b.use_count a.use_count
      ∷ nat_key b.last_used_at_ns a.last_used_at_ns
      ∷ text_key a.record_id b.record_id
      ∷ [])

  unfoldable pub eligible_of :
      ContinuityRecallPolicy → List (ContinuityMemory F) → List (ContinuityMemory F)
  unfolding is_eligible recall_less
  eligible_of p records = sort_by recall_less (filter (is_eligible p) records)

  -- `select_continuity_context`
  unfoldable pub select_continuity_context :
      List (ContinuityMemory F) → ContinuityRecallPolicy → ContinuitySelection
  unfolding eligible_of select_loop
  select_continuity_context records p =
      let eligible : List (ContinuityMemory F) = eligible_of p records in
      let taken : List (ContinuityMemory F) × ℕ = select_loop p eligible [] 0 in
      let selected_ids : List String = record_ids taken.0 in
      let omitted_core : List String =
        record_ids (filter (λ m. is_core m && not (contains m.record_id selected_ids)) eligible) in
      record {
        items = map recall_item taken.0;
        selected_record_ids = selected_ids;
        omitted_core_record_ids = omitted_core;
        context_chars = taken.1;
        requires_compaction = any_id omitted_core;
      }
