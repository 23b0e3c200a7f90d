-- ===== src/Continuity/Recall/Complete.antt =====
-- No core fact is left out of a continuity context without a word.
use mini_code_agent_langgrap.Prelude.{
  ◌≡◌, refl, sym, subst, ℕ, ◌+◌, Bool, true, false, not, ◌&&◌, List, [], ◌∷◌, ◌++◌, String, ◌==◌,
  contains, All, map, filter, arith, Bool-cases, inl, inr,
}
use mini_code_agent_langgrap.Prelude.Sorting.{
  filter-All, All-filter, sort_by-All, All-sort_by, All-imp, eq_comm,
}
use mini_code_agent_langgrap.Continuity.{Floats, ContinuityMemory, chars, is_active, record_ids}
use mini_code_agent_langgrap.Continuity.Ids.{found, others, All-zip}
use mini_code_agent_langgrap.Continuity.Retention.{has_duplicates}
use mathlib.Core.List.{Mem, mem-cons_self, mem-cons_of_mem}
use mini_code_agent_langgrap.Continuity.Recall.{
  ContinuityRecallPolicy, is_core, is_eligible, has_place, separator, recall_item, select_loop,
  recall_less, eligible_of, any_id, select_continuity_context,
}

module _ {F : Type 0} where
  -- A core record is selected, or else among those left out.
  reported :
      (selected : List String) (eligible : List (ContinuityMemory F))
      → any_id
          (record_ids (filter (λ m. is_core m && not (contains m.record_id selected)) eligible))
        ≡ false
      → All (λ m. is_core m ≡ true → contains m.record_id selected ≡ true) eligible
  reported selected eligible none_omitted = All-imp eligible selected_of (
      filter-All (λ m. contains m.record_id omitted ≡ true) is_omitted eligible
        (found (filter is_omitted eligible)))
    where
      is_omitted : ContinuityMemory F → Bool
      is_omitted m = is_core m && not (contains m.record_id selected)

      omitted : List String
      omitted = record_ids (filter is_omitted eligible)

      empty : (ids : List String) (a : String) → any_id ids ≡ false → contains a ids ≡ false
      empty [] a h = refl
      empty (x ∷ ids) a h = cc

      selected_of :
          (m : ContinuityMemory F)
          → (is_omitted m ≡ true → contains m.record_id omitted ≡ true)
          → is_core m ≡ true
          → contains m.record_id selected ≡ true
      selected_of m member core = elim (Bool-cases (contains m.record_id selected)) [
        | inl e ↦ e
        | inr e ↦
            let absent = empty omitted m.record_id none_omitted in
            let present = member (ground arith) in ground arith
      ]

module _ {F : Type 0} where
  -- A record with the id of `m` is `m`.
  abbrev IsOnly : ContinuityMemory F → ContinuityMemory F → Type 0
  IsOnly m x = (x.record_id == m.record_id) ≡ true → x ≡ m

  IsOnly-records :
      (records : List (ContinuityMemory F))
      → has_duplicates (record_ids records) ≡ false
      → All (λ m. All (IsOnly m) records) records
  unfolding has_duplicates
  IsOnly-records [] h = tt
  IsOnly-records (r ∷ rs) h =
      let fresh = others r.record_id rs (ground arith) in
      (
        ((λ e. refl), All-imp rs (λ x apart e. absurd (ground arith)) fresh),
        All-imp rs
            (λ m (only, apart).
              ((λ e. absurd (ground (arith, eq_comm r.record_id m.record_id))), only))
            (All-zip _ _ rs (IsOnly-records rs (ground arith)) fresh),
      )

  select_loop-All :
      (P : ContinuityMemory F → Type 0) (p : ContinuityRecallPolicy)
      (ms selected : List (ContinuityMemory F)) (context_chars : ℕ)
      → All P ms
      → All P selected
      → All P (select_loop p ms selected context_chars).0
  unfolding select_loop
  select_loop-All P p [] selected n h k = k
  select_loop-All P p (m ∷ ms) selected n (h, hs) k = elim (Bool-cases (has_place p selected n m)) [
    | inl e ↦ rw e (
        select_loop-All P p ms (selected ++ (m ∷ [])) (n + (separator selected + chars m)) hs
          (All-snoc selected m k h))
    | inr e ↦ rw e (select_loop-All P p ms selected n hs k)
  ]
    where
      All-snoc :
          (xs : List (ContinuityMemory F)) (x : ContinuityMemory F)
          → All P xs
          → P x
          → All P (xs ++ (x ∷ []))
      All-snoc [] x a b = (b, tt)
      All-snoc (y ∷ ys) x (a, rest) b = (a, All-snoc ys x rest b)

  -- The item of a record whose id is among those of the taken records.
  item_of_id :
      (m : ContinuityMemory F) (taken : List (ContinuityMemory F))
      → All (IsOnly m) taken
      → contains m.record_id (record_ids taken) ≡ true
      → Mem (recall_item m) (map recall_item taken)
  item_of_id m [] h c = cc
  item_of_id m (x ∷ xs) (only, h) c = elim (Bool-cases (x.record_id == m.record_id)) [
    | inl e ↦
        subst (λ y. Mem (recall_item m) (recall_item y ∷ map recall_item xs)) (sym (only e))
          mem-cons_self
    | inr e ↦
        let swap = eq_comm x.record_id m.record_id in
        mem-cons_of_mem (recall_item x) (item_of_id m xs h (ground arith))
  ]

-- Where no two records have one id and the selection does not ask for compaction, the item of every
-- active core record whose source is valid is among the selected items.
pub select_continuity_context_complete :
    {F : Type 0} (floats : Floats F) (records : List (ContinuityMemory F))
    (p : ContinuityRecallPolicy)
    → has_duplicates (record_ids records) ≡ false
    → (select_continuity_context floats records p).requires_compaction ≡ false
    → All
        (λ m.
          is_active m ≡ true
          → m.source_valid ≡ true
          → is_core m ≡ true
          → Mem (recall_item m) (select_continuity_context floats records p).items)
        records
unfolding select_continuity_context eligible_of
select_continuity_context_complete floats records p distinct complete =
    let eligible = eligible_of floats p records in
    let taken = (select_loop p eligible [] 0).0 in
    All-imp records
      (λ m (only, h) active valid core.
        item_of_id m taken
          (select_loop-All (IsOnly m) p eligible [] 0
            (All-sort_by (IsOnly m) (recall_less floats) (filter (is_eligible p) records)
              (All-filter (IsOnly m) (is_eligible p) records only))
            tt)
          (h (unfold is_eligible in ground arith) core))
      (All-zip _ _ records (IsOnly-records records distinct) (
        filter-All _ (is_eligible p) records (
          sort_by-All _ (recall_less floats) (filter (is_eligible p) records)
            (reported (record_ids taken) eligible complete))))
