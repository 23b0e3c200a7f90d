-- ===== src/Lifecycle.antt =====
-- `select_retirements` of src/memory_core/lifecycle.py. Times and character counts are natural
-- numbers, so the test for a negative incoming count is not needed. The retained records are kept
-- oldest first, the reverse of the source's list, so that `pop()` takes the head.
pub mod Retire
use mini_code_agent_langgrap.Prelude.{
  ℕ, suc, ◌+◌, Bool, true, false, not, ◌&&◌, ◌||◌, List, [], ◌∷◌, ◌++◌, String, ltb, leb, length,
  if◌then◌else◌, Result, ok,
}
use mini_code_agent_langgrap.Prelude.Results.{◌>>=◌, ◌>>◌, raise_if}

pub record CapacityPolicy : Type 0 where
  pub max_active_records_per_scope : ℕ
  pub max_active_chars_per_scope : ℕ

-- `CapacityPolicy(...)`
unfoldable pub capacity_policy : CapacityPolicy → Result CapacityPolicy
capacity_policy p = do
  raise_if (ltb p.max_active_records_per_scope 1) "ValueError"
      "active record capacity must be positive"
  raise_if (ltb p.max_active_chars_per_scope 1) "ValueError"
      "active character capacity must be positive"
  ok p

pub record LifecycleRecord : Type 0 where
  pub record_id : String
  pub recorded_at_ns : ℕ
  pub chars : ℕ

unfoldable pub insert_newest_first : LifecycleRecord → List LifecycleRecord → List LifecycleRecord
insert_newest_first r [] = r ∷ []
insert_newest_first r (x ∷ xs) =
    let rest = insert_newest_first r xs in
    if leb x.recorded_at_ns r.recorded_at_ns then r ∷ x ∷ xs else x ∷ rest

-- `sorted(records, key=recorded_at_ns, reverse=True)`, which is stable
unfoldable pub newest_first : List LifecycleRecord → List LifecycleRecord
unfolding insert_newest_first
newest_first [] = []
newest_first (r ∷ rs) = insert_newest_first r (newest_first rs)

abbrev pub reverse : List LifecycleRecord → List LifecycleRecord
reverse [] = []
reverse (r ∷ rs) = reverse rs ++ (r ∷ [])

unfoldable pub oldest_first : List LifecycleRecord → List LifecycleRecord
oldest_first records = reverse (newest_first records)

abbrev pub total_chars : List LifecycleRecord → ℕ
total_chars [] = 0
total_chars (r ∷ rs) = r.chars + total_chars rs

-- The loop's test, for records that are retained.
unfoldable pub exceeds : CapacityPolicy → ℕ → List LifecycleRecord → Bool
exceeds p incoming retained =
    ltb p.max_active_records_per_scope (length retained + 1)
    || ltb p.max_active_chars_per_scope (total_chars retained + incoming)

unfoldable pub retire_loop : CapacityPolicy → ℕ → List LifecycleRecord → List String
retire_loop p incoming [] = []
retire_loop p incoming (r ∷ rest) =
    let more = retire_loop p incoming rest in
    if exceeds p incoming (r ∷ rest) then r.record_id ∷ more else []

unfoldable pub select_retirements : List LifecycleRecord → ℕ → CapacityPolicy → List String
select_retirements records incoming p = retire_loop p incoming (oldest_first records)
