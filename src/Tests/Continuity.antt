-- ===== src/Tests/Continuity.antt =====
-- A plan that retires a transient memory for a new one, and the context of a new session. The floats
-- are natural numbers.
use mini_code_agent_langgrap.Prelude.{
  ◌≡◌, refl, ℕ, ◌+◌, ◌*◌, ◌/◌, ◌≤◌, true, false, not, List, [], ◌∷◌, String, ok, ◌==◌, eqb, ltb,
  length, contains, All, filter, sort_by, strip,
}
use Prim.Native.String.{count}
use mini_code_agent_langgrap.Continuity.{
  Floats, ContinuityMemory, chars, is_active, sum_chars, retention_rank,
}
use mini_code_agent_langgrap.Continuity.Retention.{
  LongTermRetentionPolicy, RetentionDecision, is_protected, has_duplicates,
}
use mini_code_agent_langgrap.Continuity.Retention.Plan.{plan_long_term_retention}
use mini_code_agent_langgrap.Continuity.Retention.Plan.Capacity.{plan_long_term_retention-capacity}
use mini_code_agent_langgrap.Continuity.Retention.Plan.Spared.{IsSpared}
use mini_code_agent_langgrap.Continuity.Retention.Plan.Protected.{plan_long_term_retention-IsSpared}
use mini_code_agent_langgrap.Continuity.Recall.{
  ContinuityRecallPolicy, ContinuitySelection, recall_item, select_continuity_context,
}
use mathlib.Core.List.{Mem}
use mini_code_agent_langgrap.Continuity.Recall.Budget.{lines, select_continuity_context-within}
use mini_code_agent_langgrap.Continuity.Recall.Complete.{select_continuity_context_complete}

abbrev floats : Floats ℕ
floats = record {
  literal = λ text. 1;
  of_int = λ n. n;
  ratio = λ a b. a / b;
  add = λ a b. a + b;
  mul = λ a b. a * b;
  div = λ a b. a / b;
  log = λ a. a;
  log1p = λ a. a + 1;
  equal = eqb;
  less = ltb;
}

abbrev memory : String → String → ContinuityMemory ℕ
memory name class = record {
  record_id = name;
  text = "a fact";
  retention_class = class;
  recorded_at_ns = 1;
  last_used_at_ns = 0;
  use_count = 0;
  importance = 1;
  confidence = 1;
  identity_anchor = "";
  pinned = false;
  source_valid = true;
  status = "active";
  authority = "none";
  evidence_refs = [];
}

abbrev memories : List (ContinuityMemory ℕ)
memories = memory "c" "core" ∷ memory "t" "transient" ∷ []

abbrev incoming : ContinuityMemory ℕ
incoming = memory "n" "durable"

abbrev policy : LongTermRetentionPolicy
policy = record {
  max_active_records = 2;
  max_active_chars = 100;
  preserve_anchor_coverage = true;
  protect_core = true;
  protect_durable = true;
  protect_pinned = true;
  checkpoint_batch_records = 2;
}

abbrev decision : RetentionDecision
decision = record {
  admit = true;
  reason = "retire_invalid_or_lower_continuity_utility";
  retire_record_ids = "t" ∷ [];
  compact_record_ids = [];
  protected_record_ids = "c" ∷ [];
  projected_records = 2;
  projected_chars = 12;
}

decided : plan_long_term_retention floats memories incoming policy 9 ≡ ok decision
unfolding plan_long_term_retention filter sort_by strip is_protected sum_chars
decided = refl

plan_long_term_retention-capacity_example :
    let kept =
      filter
        (λ (m : ContinuityMemory ℕ). not (contains m.record_id decision.retire_record_ids))
        (filter is_active memories) in
    (decision.projected_records ≡ length kept + 1)
    × (decision.projected_chars ≡ sum_chars kept + chars incoming)
    × (decision.projected_records ≤ policy.max_active_records)
    × (decision.projected_chars ≤ policy.max_active_chars)
plan_long_term_retention-capacity_example =
    plan_long_term_retention-capacity floats memories incoming policy 9 decision decided refl

plan_long_term_retention-IsSpared_example :
    ((i : String) → contains i decision.protected_record_ids ≡ true → IsSpared decision i)
    × All
        (λ m. is_protected floats policy m ≡ true → IsSpared decision m.record_id)
        (filter is_active memories)
plan_long_term_retention-IsSpared_example =
    plan_long_term_retention-IsSpared floats memories incoming policy 9 decision decided

abbrev recall_policy : ContinuityRecallPolicy
recall_policy = record { max_items = 1; max_chars = 20; include_durable = true }

abbrev selection : ContinuitySelection
selection = select_continuity_context floats (incoming ∷ memories) recall_policy

select_continuity_context-within_example :
    (count (lines selection.items) ≡ selection.context_chars)
    × (selection.context_chars ≤ recall_policy.max_chars)
    × (length selection.items ≤ recall_policy.max_items)
select_continuity_context-within_example =
    select_continuity_context-within floats (incoming ∷ memories) recall_policy

compact : selection.requires_compaction ≡ false
unfolding select_continuity_context filter sort_by retention_rank
compact = refl

select_continuity_context_complete_example :
    All
      (λ m.
        is_active m ≡ true
        → m.source_valid ≡ true
        → (m.retention_class == "core") ≡ true
        → Mem (recall_item m) selection.items)
      (incoming ∷ memories)
select_continuity_context_complete_example =
    select_continuity_context_complete floats (incoming ∷ memories) recall_policy
      (unfold has_duplicates in refl) compact
