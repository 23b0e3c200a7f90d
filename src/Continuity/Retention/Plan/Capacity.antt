-- ===== src/Continuity/Retention/Plan/Capacity.antt =====
-- The room that a plan makes.
use mini_code_agent_langgrap.Prelude.{
  ◌≡◌, refl, sym, ◌∙◌, ap, subst, ℕ, suc, ◌+◌, ◌-◌, ◌≤◌, Bool, true, false, not, ◌&&◌, List, [],
  ◌∷◌, String, ok, ◌==◌, length, contains, All, filter, sort_by, arith, Bool-cases, inl, inr,
}
use mini_code_agent_langgrap.Prelude.Results.{>>=-eq-ok, raise_if, raise_if-eq-ok}
use mini_code_agent_langgrap.Prelude.Sorting.{
  All-filter, All-sort_by, All-filter_test, All-imp, contains-append, contains-filter,
  contains-sort_by,
}
use mini_code_agent_langgrap.Continuity.{
  Floats, ContinuityMemory, chars, is_active, record_ids, sum_chars, less_text,
}
use mini_code_agent_langgrap.Continuity.Ids.{
  found, filter-ext, filter-filter, filter-record_ids, All-pure, has_duplicates-filter,
  has_duplicates-sort, sum_chars-without, All-zip, others,
}
use mini_code_agent_langgrap.Continuity.Retention.{
  LongTermRetentionPolicy, RetentionDecision, has_duplicates, candidate_less, protected_ids,
  remove_id,
}
use mini_code_agent_langgrap.Continuity.Retention.Plan.{
  Room, fits, take_out, make_room, first_room, settle_room, candidates_of, is_compactable,
  plan_capacity, plan_active, plan_long_term_retention, refusal,
}

module _ {F : Type 0} (active : List (ContinuityMemory F)) where
  -- The records that the room has not taken out.
  abbrev alive : Room → ContinuityMemory F → Bool
  alive room m =
      not (contains m.record_id room.retirements) && not (contains m.record_id room.compactions)

  -- The ids and the characters of the room are those of the records left.
  record IsExact (room : Room) : Type 0 where
    ids : room.retained_ids ≡ record_ids (filter (alive room) active)
    chars : room.retained_chars ≡ sum_chars (filter (alive room) active)

  first_room-IsExact : IsExact (first_room active)
  unfolding first_room
  first_room-IsExact = record {
    ids =
        filter-record_ids (λ i. not (contains i invalid)) active
        ∙ ap record_ids (filter-ext _ (alive (first_room active)) active (All-pure _ active left));
    chars =
        ap sum_chars
          (filter-ext _ (alive (first_room active)) active (All-imp active known (found active)));
  }
    where
      invalid : List String
      invalid = record_ids (filter (λ m. not m.source_valid) active)

      left :
          (m : ContinuityMemory F)
          → not (contains m.record_id invalid) ≡ alive (first_room active) m
      left m =
          let same = contains-sort_by less_text m.record_id invalid in
          unfold first_room in ground arith

      known :
          (m : ContinuityMemory F)
          → contains m.record_id (record_ids active) ≡ true
          → contains m.record_id (filter (λ i. not (contains i invalid)) (record_ids active))
            ≡ alive (first_room active) m
      known m member =
          let kept =
            contains-filter m.record_id (λ i. not (contains i invalid)) (record_ids active) in
          let same = left m in ground arith

  retained-alive :
      (m : ContinuityMemory F)
      → contains m.record_id (first_room active).retained_ids ≡ true
      → alive (first_room active) m ≡ true
  unfolding first_room
  retained-alive m member =
      let invalid = record_ids (filter (λ x. not x.source_valid) active) in
      let kept = contains-filter m.record_id (λ i. not (contains i invalid)) (record_ids active) in
      let same = contains-sort_by less_text m.record_id invalid in ground arith

  -- What `sum_chars-without` says of a candidate.
  abbrev Weighs : ContinuityMemory F → Type 0
  Weighs c =
      (q : ContinuityMemory F → Bool)
      → q c ≡ true
      → sum_chars (filter q active)
        ≡ sum_chars (filter (λ m. q m && not (m.record_id == c.record_id)) active) + chars c

  alive-take_out :
      (c : ContinuityMemory F) (room : Room) (m : ContinuityMemory F)
      → alive room m && not (m.record_id == c.record_id) ≡ alive (take_out c room) m
  unfolding take_out
  alive-take_out c room m =
      let retired = contains-append m.record_id room.retirements (c.record_id ∷ []) in
      let compacted = contains-append m.record_id room.compactions (c.record_id ∷ []) in
      elim (Bool-cases (is_compactable c)) [
        | inl e ↦ rw e (ground arith)
        | inr e ↦ rw e (ground arith)
      ]

  take_out-IsExact :
      (c : ContinuityMemory F) (room : Room)
      → Weighs c
      → alive room c ≡ true
      → IsExact room
      → IsExact (take_out c room)
  take_out-IsExact c room weighs there exact =
      let left =
        filter-ext _ (alive (take_out c room)) active (All-pure _ active (alive-take_out c room)) in
      record {
        ids =
            unfold take_out in
            ap (remove_id c.record_id) exact.ids
            ∙ filter-record_ids (λ i. not (i == c.record_id)) (filter (alive room) active)
            ∙ ap record_ids
                (filter-filter (λ m. not (m.record_id == c.record_id)) (alive room) active ∙ left);
        chars =
            let sum = weighs (alive room) there in
            let after = ap sum_chars left in
            let before = exact.chars in
            let taken : (take_out c room).retained_chars ≡ room.retained_chars - chars c =
              unfold take_out in refl in
            omega arith;
      }

  -- The loop keeps the room exact.
  make_room-IsExact :
      (p : LongTermRetentionPolicy) (n : ℕ) (ms : List (ContinuityMemory F)) (room : Room)
      → has_duplicates (record_ids ms) ≡ false
      → All Weighs ms
      → All (λ c. alive room c ≡ true) ms
      → IsExact room
      → IsExact (make_room p n ms room)
  unfolding make_room
  make_room-IsExact p n [] room apart weighs there exact = exact
  make_room-IsExact p n (c ∷ ms) room apart (w, weighs) (a, there) exact =
      elim (Bool-cases (fits p n room)) [
        | inl e ↦ rw e exact
        | inr e ↦ rw e (
            make_room-IsExact p n ms (take_out c room) (unfold has_duplicates in ground arith)
              weighs still (take_out-IsExact c room w a exact))
      ]
    where
      stays :
          (m : ContinuityMemory F)
          → ((m.record_id == c.record_id) ≡ false) × (alive room m ≡ true)
          → alive (take_out c room) m ≡ true
      stays m (other, here) = let step = alive-take_out c room m in ground arith

      still : All (λ m. alive (take_out c room) m ≡ true) ms
      still =
          All-imp ms stays
            (All-zip _ _ ms (others c.record_id ms (unfold has_duplicates in ground arith)) there)

module _ {F : Type 0} (floats : Floats F) where
  candidates-IsExact :
      (active : List (ContinuityMemory F)) (incoming : ContinuityMemory F)
      (p : LongTermRetentionPolicy) (now_ns : ℕ) (protected : List String)
      → has_duplicates (record_ids active) ≡ false
      → IsExact active (
          make_room p
            (chars incoming)
            (candidates_of floats active protected now_ns)
            (first_room active))
  unfolding candidates_of
  candidates-IsExact active incoming p now_ns protected apart =
      let may_go : ContinuityMemory F → Bool = λ m.
        not (contains m.record_id protected)
        && contains m.record_id (first_room active).retained_ids in
      let few = filter may_go active in
      make_room-IsExact active p (chars incoming) (sort_by (candidate_less floats now_ns) few)
        (first_room active)
        (has_duplicates-sort (candidate_less floats now_ns) few
          ∙ has_duplicates-filter may_go active apart)
        (All-sort_by _ (candidate_less floats now_ns) few
          (All-filter _ may_go active (sum_chars-without active apart)))
        (All-sort_by _ (candidate_less floats now_ns) few (
          All-imp few (λ m e. retained-alive active m (ground arith))
            (All-filter_test may_go active)))
        (first_room-IsExact active)

module _ {F : Type 0} (p : LongTermRetentionPolicy) (active : List (ContinuityMemory F))
    (n : ℕ) where
  -- What an admission promises.
  abbrev Fulfils : RetentionDecision → Type 0
  Fulfils d =
      let kept = filter (λ m. not (contains m.record_id d.retire_record_ids)) active in
      (d.projected_records ≡ length kept + 1)
      × (d.projected_chars ≡ sum_chars kept + n)
      × (d.projected_records ≤ p.max_active_records)
      × (d.projected_chars ≤ p.max_active_chars)

  module _ (candidates : List (ContinuityMemory F)) (protected : List String) (room : Room) where
    -- The decision of an admission is the room's.
    settle_room-admit :
        (settle_room p active n candidates protected room).admit ≡ true
        → (fits p n room ≡ true)
          × (room.compactions ≡ [])
          × ((settle_room p active n candidates protected room).retire_record_ids
              ≡ room.retirements)
          × ((settle_room p active n candidates protected room).projected_records
              ≡ length room.retained_ids + 1)
          × ((settle_room p active n candidates protected room).projected_chars
              ≡ room.retained_chars + n)
    unfolding settle_room refusal
    settle_room-admit admitted = ground arith

    settle_room-Fulfils :
        IsExact active room
        → (settle_room p active n candidates protected room).admit ≡ true
        → Fulfils (settle_room p active n candidates protected room)
    settle_room-Fulfils exact admitted =
        let (room_fits, no_compactions, retired, projected, counted) = settle_room-admit admitted in
        let kept =
          filter (λ (m : ContinuityMemory F). not (contains m.record_id room.retirements)) active in
        let left : filter (alive active room) active ≡ kept = filter-ext _ _ active (
          All-pure _ active
            (λ m. rw no_compactions (plain (not (contains m.record_id room.retirements))))) in
        let size : length room.retained_ids ≡ length kept =
          ap length (exact.ids ∙ ap record_ids left) ∙ length-record_ids kept in
        let sum : room.retained_chars ≡ sum_chars kept = exact.chars ∙ ap sum_chars left in
        rw (retired, projected, counted)
          (
            ap (λ k. k + 1) size,
            ap (λ k. k + n) sum,
            unfold fits in ground arith,
            unfold fits in ground arith,
          )
      where
        plain : (b : Bool) → b && true ≡ b
        plain b = ground arith

        length-record_ids : (ms : List (ContinuityMemory F)) → length (record_ids ms) ≡ length ms
        length-record_ids [] = refl
        length-record_ids (m ∷ ms) = ap suc (length-record_ids ms)

module _ {F : Type 0} (floats : Floats F) (p : LongTermRetentionPolicy)
    (active : List (ContinuityMemory F)) (incoming : ContinuityMemory F) (now_ns : ℕ) where
  plan_active-admit :
      (plan_active floats active incoming p now_ns).admit ≡ true
      → plan_active floats active incoming p now_ns ≡ plan_capacity floats active incoming p now_ns
  unfolding plan_active refusal
  plan_active-admit admitted = ground arith

  plan_capacity-Fulfils :
      has_duplicates (record_ids active) ≡ false
      → (plan_capacity floats active incoming p now_ns).admit ≡ true
      → Fulfils p active (chars incoming) (plan_capacity floats active incoming p now_ns)
  unfolding plan_capacity
  plan_capacity-Fulfils apart admitted =
      let protected = protected_ids floats active p in
      settle_room-Fulfils p active (chars incoming) (candidates_of floats active protected now_ns)
        protected _ (candidates-IsExact floats active incoming p now_ns protected apart) admitted

  plan_active-Fulfils :
      has_duplicates (record_ids active) ≡ false
      → (plan_active floats active incoming p now_ns).admit ≡ true
      → Fulfils p active (chars incoming) (plan_active floats active incoming p now_ns)
  plan_active-Fulfils apart admitted =
      let chosen = plan_active-admit admitted in
      subst (Fulfils p active (chars incoming)) (sym chosen)
        (plan_capacity-Fulfils apart (ap (λ x. x.admit) (sym chosen) ∙ admitted))

-- A plan that admits retires records after which the others and the incoming one have exactly the
-- number and the characters that the plan projects, and these are within the capacities.
pub plan_long_term_retention-capacity :
    {F : Type 0} (floats : Floats F) (records : List (ContinuityMemory F))
    (incoming : ContinuityMemory F) (p : LongTermRetentionPolicy) (now_ns : ℕ)
    (d : RetentionDecision)
    → plan_long_term_retention floats records incoming p now_ns ≡ ok d
    → d.admit ≡ true
    → let kept =
        filter (λ m. not (contains m.record_id d.retire_record_ids)) (filter is_active records) in
      (d.projected_records ≡ length kept + 1)
      × (d.projected_chars ≡ sum_chars kept + chars incoming)
      × (d.projected_records ≤ p.max_active_records)
      × (d.projected_chars ≤ p.max_active_chars)
unfolding plan_long_term_retention
plan_long_term_retention-capacity floats records incoming p now_ns d h admitted =
    let active = filter is_active records in
    let (_, apart, h1) = >>=-eq-ok (raise_if (has_duplicates (record_ids active)) _ _) _ h in
    let (_, _, h2) =
      >>=-eq-ok (raise_if (contains incoming.record_id (record_ids active)) _ _) _ h1 in
    let planned : plan_active floats active incoming p now_ns ≡ d = ok-eq h2 in
    subst (Fulfils p active (chars incoming)) planned (
      plan_active-Fulfils floats p active incoming now_ns (raise_if-eq-ok _ _ _ apart)
        (ap (λ x. x.admit) planned ∙ admitted))
  where
    ok-eq : {a b : RetentionDecision} → ok a ≡ ok b → a ≡ b
    ok-eq e = cc
