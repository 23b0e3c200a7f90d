-- ===== src/Continuity/Retention.antt =====
-- `plan_long_term_retention` of src/memory_core/continuity.py. A set of record ids is a list.
pub mod Plan
use mini_code_agent_langgrap.Prelude.{
  ℕ, ◌+◌, ◌-◌, ◌*◌, Bool, true, false, not, ◌&&◌, ◌||◌, List, [], ◌∷◌, ◌++◌, String, Result, ok,
  ◌==◌, ltb, leb, is_empty, strip, length, take, contains, filter, sort_by, if◌then◌else◌,
}
use mini_code_agent_langgrap.Prelude.Results.{◌>>=◌, ◌>>◌, raise_if}
use mini_code_agent_langgrap.Continuity.{
  Floats, ContinuityMemory, chars, is_active, record_ids, sum_chars, retention_rank, less_text,
  tuple_less, nat_key, text_key, float_key,
}

pub record LongTermRetentionPolicy : Type 0 where
  pub max_active_records : ℕ
  pub max_active_chars : ℕ
  pub preserve_anchor_coverage : Bool
  pub protect_core : Bool
  pub protect_durable : Bool
  pub protect_pinned : Bool
  pub checkpoint_batch_records : ℕ

-- `LongTermRetentionPolicy(...)`
unfoldable pub long_term_retention_policy : LongTermRetentionPolicy → Result LongTermRetentionPolicy
long_term_retention_policy p = do
  raise_if (ltb p.max_active_records 1 || ltb p.max_active_chars 1) "ValueError"
      "long-term retention capacities must be positive"
  raise_if (ltb p.checkpoint_batch_records 2) "ValueError"
      "checkpoint batch must contain at least two records"
  ok p

pub record RetentionDecision : Type 0 where
  pub admit : Bool
  pub reason : String
  pub retire_record_ids : List String
  pub compact_record_ids : List String
  pub protected_record_ids : List String
  pub projected_records : ℕ
  pub projected_chars : ℕ

-- `len(set(ids)) != len(ids)`
unfoldable pub has_duplicates : List String → Bool
has_duplicates [] = false
has_duplicates (a ∷ rest) = contains a rest || has_duplicates rest

-- `ids.remove(a)`
abbrev pub remove_id : String → List String → List String
remove_id a ids = filter (λ i. not (i == a)) ids

unfoldable pub max_of : ℕ → ℕ → ℕ
max_of a b = if leb a b then b else a

module _ {F : Type 0} (floats : Floats F) where
  -- `_retention_utility`
  unfoldable pub retention_utility : ContinuityMemory F → ℕ → F
  unfolding retention_rank max_of
  retention_utility m now_ns =
      if not m.source_valid
      then floats.literal "-10.0"
      else let age_days : F =
          floats.ratio (now_ns - max_of m.last_used_at_ns m.recorded_at_ns) 86400000000000 in
        let one : F = floats.literal "1.0" in
        let recency : F = floats.div one (floats.add one (floats.log1p age_days)) in
        let used : F =
          floats.div (floats.log1p (floats.of_int m.use_count)) (floats.log (floats.of_int 101)) in
        let usage : F = if floats.less one used then one else used in
        floats.add
          (floats.add
            (floats.add
              (floats.add
                (floats.mul (floats.of_int (retention_rank m.retention_class))
                  (floats.literal "2.0"))
                (floats.mul m.importance (floats.literal "1.5")))
              m.confidence)
            usage)
          (floats.mul recency (floats.literal "0.5"))

  -- The key of a survivor of an anchor.
  unfoldable pub survivor_less : ContinuityMemory F → ContinuityMemory F → Bool
  survivor_less a b = tuple_less (
      nat_key (retention_rank a.retention_class) (retention_rank b.retention_class)
      ∷ float_key floats a.importance b.importance
      ∷ float_key floats a.confidence b.confidence
      ∷ nat_key a.last_used_at_ns b.last_used_at_ns
      ∷ nat_key a.recorded_at_ns b.recorded_at_ns
      ∷ text_key a.record_id b.record_id
      ∷ [])

  -- `max(...)`: the first of the greatest.
  unfoldable pub survivor : ContinuityMemory F → List (ContinuityMemory F) → ContinuityMemory F
  unfolding survivor_less
  survivor best [] = best
  survivor best (m ∷ ms) = survivor (if survivor_less best m then m else best) ms

  -- `by_anchor`: the members of each anchor, the first apart, in the order in which they come.
  abbrev pub Anchored : Type 0
  Anchored = List (String × ContinuityMemory F × List (ContinuityMemory F))

  unfoldable pub add_anchored : ContinuityMemory F → Anchored → Anchored
  add_anchored m [] = (m.identity_anchor, m, []) ∷ []
  add_anchored m ((anchor, first, more) ∷ rest) =
      let later = add_anchored m rest in
      if anchor == m.identity_anchor
      then (anchor, first, more ++ (m ∷ [])) ∷ rest
      else (anchor, first, more) ∷ later

  abbrev pub is_anchored : ContinuityMemory F → Bool
  is_anchored m =
      m.source_valid
      && (not (is_empty (strip m.identity_anchor))
          && (m.retention_class == "core" || m.retention_class == "durable"))

  unfoldable pub by_anchor : List (ContinuityMemory F) → Anchored → Anchored
  unfolding add_anchored
  by_anchor [] groups = groups
  by_anchor (m ∷ ms) groups = by_anchor ms (if is_anchored m then add_anchored m groups else groups)

  pub any_protected : List String → List (ContinuityMemory F) → Bool
  any_protected protected [] = false
  any_protected protected (m ∷ ms) = contains m.record_id protected || any_protected protected ms

  -- The loop over `by_anchor.values()`.
  unfoldable pub protect_survivors : Anchored → List String → List String
  unfolding any_protected survivor
  protect_survivors [] protected = protected
  protect_survivors ((anchor, first, more) ∷ rest) protected = protect_survivors rest (
      if any_protected protected (first ∷ more)
      then protected
      else protected ++ ((survivor first more).record_id ∷ []))

  unfoldable pub is_protected : LongTermRetentionPolicy → ContinuityMemory F → Bool
  is_protected p m =
      m.source_valid
      && ((p.protect_core && m.retention_class == "core")
          || ((p.protect_durable && m.retention_class == "durable")
              || (p.protect_pinned && m.pinned)))

  -- `_protected_ids`
  unfoldable pub protected_ids : List (ContinuityMemory F) → LongTermRetentionPolicy → List String
  unfolding by_anchor protect_survivors
  protected_ids records p =
      let protected : List String = record_ids (filter (is_protected p) records) in
      if not p.preserve_anchor_coverage
      then protected
      else protect_survivors (by_anchor records []) protected

  unfoldable pub candidate_less : ℕ → ContinuityMemory F → ContinuityMemory F → Bool
  unfolding retention_utility
  candidate_less now_ns a b = tuple_less (
      float_key floats (retention_utility a now_ns) (retention_utility b now_ns)
      ∷ text_key a.record_id b.record_id
      ∷ [])
