-- ===== src/Continuity/Retention/Plan/Spared.antt =====
-- The ids that the loops over the candidates leave alone.
use mini_code_agent_langgrap.Prelude.{
  ◌≡◌, refl, ℕ, suc, zero, false, List, [], ◌∷◌, ◌++◌, String, ◌==◌, take, contains, All, arith,
  Bool-cases, inl, inr,
}
use mini_code_agent_langgrap.Prelude.Sorting.{contains-append}
use mini_code_agent_langgrap.Continuity.{ContinuityMemory}
use mini_code_agent_langgrap.Continuity.Retention.{LongTermRetentionPolicy, RetentionDecision}
use mini_code_agent_langgrap.Continuity.Retention.Plan.{
  Room, fits, take_out, make_room, settle_room, more_compactions, refusal,
}

-- An id that a decision leaves alone.
pub record IsSpared (d : RetentionDecision) (i : String) : Type 0 where
  pub not_retired : contains i d.retire_record_ids ≡ false
  pub not_compacted : contains i d.compact_record_ids ≡ false

contains-snoc :
    (i a : String) (xs : List String)
    → contains i xs ≡ false
    → (i == a) ≡ false
    → contains i (xs ++ (a ∷ [])) ≡ false
contains-snoc i a xs absent other = let step = contains-append i xs (a ∷ []) in ground arith

contains-take :
    (i : String) (n : ℕ) (xs : List String) → contains i xs ≡ false → contains i (take n xs) ≡ false
contains-take i zero xs h = refl
contains-take i (suc n) [] h = refl
contains-take i (suc n) (x ∷ xs) h = let rest = contains-take i n xs (ground arith) in ground arith

-- An id that is protected from the loops over the candidates.
module _ {F : Type 0} (i : String) where
  pub make_room-spares :
      (p : LongTermRetentionPolicy) (n : ℕ) (ms : List (ContinuityMemory F)) (room : Room)
      → All (λ m. (i == m.record_id) ≡ false) ms
      → contains i room.retirements ≡ false
      → contains i room.compactions ≡ false
      → (contains i (make_room p n ms room).retirements ≡ false)
        × (contains i (make_room p n ms room).compactions ≡ false)
  unfolding make_room
  make_room-spares p n [] room other a b = (a, b)
  make_room-spares p n (m ∷ ms) room (o, other) a b = elim (Bool-cases (fits p n room)) [
    | inl e ↦ rw e (a, b)
    | inr e ↦ rw e (make_room-spares p n ms (take_out m room) other retired compacted)
  ]
    where
      retired : contains i (take_out m room).retirements ≡ false
      retired =
          let longer = contains-snoc i m.record_id room.retirements a o in
          unfold take_out in ground arith

      compacted : contains i (take_out m room).compactions ≡ false
      compacted =
          let longer = contains-snoc i m.record_id room.compactions b o in
          unfold take_out in ground arith

  pub more_compactions-spares :
      (minimum : ℕ) (ms : List (ContinuityMemory F)) (ids : List String)
      → All (λ m. (i == m.record_id) ≡ false) ms
      → contains i ids ≡ false
      → contains i (more_compactions minimum ms ids) ≡ false
  unfolding more_compactions
  more_compactions-spares minimum [] ids other a = a
  more_compactions-spares minimum (m ∷ ms) ids (o, other) a =
      let same = more_compactions-spares minimum ms ids other a in
      let added = contains-snoc i m.record_id ids a o in
      let longer = more_compactions-spares minimum ms (ids ++ (m.record_id ∷ [])) other added in
      ground arith

  pub settle_room-IsSpared :
      (p : LongTermRetentionPolicy) (active : List (ContinuityMemory F)) (n : ℕ)
      (ms : List (ContinuityMemory F)) (protected : List String) (room : Room)
      → All (λ m. (i == m.record_id) ≡ false) ms
      → contains i room.retirements ≡ false
      → contains i room.compactions ≡ false
      → IsSpared (settle_room p active n ms protected room) i
  unfolding settle_room refusal
  settle_room-IsSpared p active n ms protected room other a b =
      let more1 = more_compactions-spares 1 ms room.compactions other b in
      let more2 = more_compactions-spares 2 ms room.compactions other b in
      let few = contains-take i p.checkpoint_batch_records room.compactions b in
      let few1 =
        contains-take i p.checkpoint_batch_records (more_compactions 1 ms room.compactions) more1 in
      let few2 =
        contains-take i p.checkpoint_batch_records (more_compactions 2 ms room.compactions) more2 in
      record { not_retired = ground arith; not_compacted = ground arith }
