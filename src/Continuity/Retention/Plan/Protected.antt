-- ===== src/Continuity/Retention/Plan/Protected.antt =====
-- What a plan never takes out.
use mini_code_agent_langgrap.Prelude.{
  ◌≡◌, refl, ◌∙◌, ap, subst, ℕ, true, false, not, List, [], ◌∷◌, ◌++◌, String, ok, ◌==◌, eq_iff,
  contains, All, filter, arith, Bool-cases, inl, inr, if◌then◌else◌,
}
use mini_code_agent_langgrap.Prelude.Results.{>>=-eq-ok, raise_if, raise_if-eq-ok}
use mini_code_agent_langgrap.Prelude.Sorting.{
  All-sort_by, filter-All, All-filter_test, All-imp, contains-append, contains-sort_by, filter-true,
  filter-false,
}
use mini_code_agent_langgrap.Continuity.{
  Floats, ContinuityMemory, chars, is_active, record_ids, less_text,
}
use mini_code_agent_langgrap.Continuity.Ids.{others, found, All-zip, contains-filter_ids}
use mini_code_agent_langgrap.Continuity.Retention.{
  LongTermRetentionPolicy, RetentionDecision, Anchored, has_duplicates, candidate_less,
  is_protected, by_anchor, any_protected, survivor, protect_survivors, protected_ids,
}
use mini_code_agent_langgrap.Continuity.Retention.Plan.{
  first_room, settle_room, candidates_of, plan_capacity, plan_active, plan_long_term_retention,
  refusal,
}
use mini_code_agent_langgrap.Continuity.Retention.Plan.Spared.{
  IsSpared, make_room-spares, settle_room-IsSpared,
}
use mini_code_agent_langgrap.Continuity.Retention.Plan.ProtectedIds.{
  All-contains, protected_ids-All,
}

module _ {F : Type 0} where
  abbrev pub invalid_ids : List (ContinuityMemory F) → List String
  invalid_ids active = record_ids (filter (λ m. not m.source_valid) active)

  -- A record whose source is valid has not the id of one whose source is not.
  valid-apart :
      (active : List (ContinuityMemory F))
      → has_duplicates (record_ids active) ≡ false
      → All (λ m. m.source_valid ≡ true → contains m.record_id (invalid_ids active) ≡ false) active
  unfolding has_duplicates
  valid-apart [] h = tt
  valid-apart (x ∷ xs) h = (
    head,
    All-imp xs tail
        (All-zip _ _ xs (others x.record_id xs (ground arith)) (valid-apart xs (ground arith))),
  )
    where
      head : x.source_valid ≡ true → contains x.record_id (invalid_ids (x ∷ xs)) ≡ false
      head valid = rw (filter-false (λ m. not m.source_valid) x xs (ap not valid)) (
          contains-filter_ids x.record_id (λ m. not m.source_valid) xs
            (unfold has_duplicates in ground arith))

      tail :
          (m : ContinuityMemory F)
          → ((m.record_id == x.record_id) ≡ false)
            × (m.source_valid ≡ true → contains m.record_id (invalid_ids xs) ≡ false)
          → m.source_valid ≡ true
          → contains m.record_id (invalid_ids (x ∷ xs)) ≡ false
      tail m (other, rest) valid =
          let absent = rest valid in
          elim (Bool-cases x.source_valid) [
            | inl e ↦ rw (filter-false (λ y. not y.source_valid) x xs (ap not e)) absent
            | inr e ↦ rw (filter-true (λ y. not y.source_valid) x xs (ap not e)) (ground arith)
          ]

module _ {F : Type 0} (floats : Floats F) (p : LongTermRetentionPolicy)
    (active : List (ContinuityMemory F)) where
  protect_survivors-grows :
      (i : String) (groups : Anchored floats) (ids : List String)
      → contains i ids ≡ true
      → contains i (protect_survivors floats groups ids) ≡ true
  unfolding protect_survivors
  protect_survivors-grows i [] ids h = h
  protect_survivors-grows i ((anchor, first, more) ∷ rest) ids h =
      protect_survivors-grows i rest _ longer
    where
      longer :
          contains i (
            if any_protected floats ids (first ∷ more)
            then ids
            else ids ++ ((survivor floats first more).record_id ∷ []))
          ≡ true
      longer =
          let step = contains-append i ids ((survivor floats first more).record_id ∷ []) in
          ground arith

  -- What the policy protects by its class, or a pin, is protected.
  is_protected-member :
      All
        (λ m.
          is_protected floats p m ≡ true
          → contains m.record_id (protected_ids floats active p) ≡ true)
        active
  unfolding protected_ids
  is_protected-member = filter-All _ (is_protected floats p) active (
      All-imp (filter (is_protected floats p) active) (λ m h. all_of m.record_id h)
        (found (filter (is_protected floats p) active)))
    where
      all_of :
          (i : String)
          → contains i (record_ids (filter (is_protected floats p) active)) ≡ true
          → contains i (protected_ids floats active p) ≡ true
      all_of i h =
          let more = protect_survivors-grows i (by_anchor floats active []) _ h in
          unfold protected_ids in ground arith

  module _ (incoming : ContinuityMemory F) (now_ns : ℕ)
      (apart : has_duplicates (record_ids active) ≡ false) (i : String) where
    plan_capacity-IsSpared :
        contains i (protected_ids floats active p) ≡ true
        → IsSpared (plan_capacity floats active incoming p now_ns) i
    unfolding plan_capacity
    plan_capacity-IsSpared member =
        let protected = protected_ids floats active p in
        let candidates = candidates_of floats active protected now_ns in
        let absent =
          All-contains (λ j. contains j (invalid_ids active) ≡ false) protected i
            (protected_ids-All floats (λ j. contains j (invalid_ids active) ≡ false) active p
              (valid-apart active apart))
            member in
        let (retired, compacted) =
          make_room-spares i p (chars incoming) candidates (first_room active) other
            (first_retired absent) first_compacted in
        settle_room-IsSpared i p active (chars incoming) candidates protected _ other retired
          compacted
      where
        outside :
            (m : ContinuityMemory F)
            → not (contains m.record_id (protected_ids floats active p)) ≡ true
            → (i == m.record_id) ≡ false
        outside m e = elim (Bool-cases (i == m.record_id)) [
          | inr f ↦ f
          | inl f ↦
              let same =
                ap (λ j. contains j (protected_ids floats active p)) ((eq_iff i m.record_id).0 f) in
              ground arith
        ]

        other :
            All
              (λ m. (i == m.record_id) ≡ false)
              (candidates_of floats active (protected_ids floats active p) now_ns)
        other =
            unfold candidates_of in
            All-sort_by _ (candidate_less floats now_ns) _
              (All-imp _ (λ m e. outside m (ground arith)) (All-filter_test _ active))

        first_retired :
            contains i (invalid_ids active) ≡ false
            → contains i (first_room active).retirements ≡ false
        first_retired absent =
            unfold first_room in contains-sort_by less_text i (invalid_ids active) ∙ absent

        first_compacted : contains i (first_room active).compactions ≡ false
        first_compacted = unfold first_room in refl

    plan_active-IsSpared :
        contains i (protected_ids floats active p) ≡ true
        → IsSpared (plan_active floats active incoming p now_ns) i
    unfolding plan_active refusal
    plan_active-IsSpared member =
        let planned = plan_capacity-IsSpared member in
        record {
          not_retired = let a = planned.not_retired in ground arith;
          not_compacted = let b = planned.not_compacted in ground arith;
        }

    -- The ids that a plan reports as protected are protected.
    reported-member :
        contains i (plan_active floats active incoming p now_ns).protected_record_ids ≡ true
        → contains i (protected_ids floats active p) ≡ true
    unfolding plan_active plan_capacity settle_room refusal
    reported-member h =
        let sorted = contains-sort_by less_text i (protected_ids floats active p) in ground arith

-- No plan, whatever its decision, retires or compacts a record whose id it reports as protected, or
-- an active record that the policy protects for its class or as pinned.
pub plan_long_term_retention-IsSpared :
    {F : Type 0} (floats : Floats F) (records : List (ContinuityMemory F))
    (incoming : ContinuityMemory F) (p : LongTermRetentionPolicy) (now_ns : ℕ)
    (d : RetentionDecision)
    → plan_long_term_retention floats records incoming p now_ns ≡ ok d
    → ((i : String) → contains i d.protected_record_ids ≡ true → IsSpared d i)
      × All
          (λ m. is_protected floats p m ≡ true → IsSpared d m.record_id)
          (filter is_active records)
unfolding plan_long_term_retention
plan_long_term_retention-IsSpared floats records incoming p now_ns d h =
    let active = filter is_active records in
    let (_, unique, h1) = >>=-eq-ok (raise_if (has_duplicates (record_ids active)) _ _) _ h in
    let (_, _, h2) =
      >>=-eq-ok (raise_if (contains incoming.record_id (record_ids active)) _ _) _ h1 in
    let apart = raise_if-eq-ok _ _ _ unique in
    let planned : plan_active floats active incoming p now_ns ≡ d = ok-eq h2 in
    subst
      (λ e.
        ((i : String) → contains i e.protected_record_ids ≡ true → IsSpared e i)
        × All (λ m. is_protected floats p m ≡ true → IsSpared e m.record_id) active)
      planned
      (
        (λ i reported.
            plan_active-IsSpared floats p active incoming now_ns apart i
              (reported-member floats p active incoming now_ns apart i reported)),
        All-imp active
            (λ m member t.
              plan_active-IsSpared floats p active incoming now_ns apart m.record_id (member t))
            (is_protected-member floats p active),
      )
  where
    ok-eq : {a b : RetentionDecision} → ok a ≡ ok b → a ≡ b
    ok-eq e = cc
