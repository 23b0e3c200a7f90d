-- ===== src/Continuity/Retention/Plan/ProtectedIds.antt =====
-- The protected ids are those of records whose source is valid.
use mini_code_agent_langgrap.Prelude.{
  ◌≡◌, sym, subst, Bool, true, false, List, [], ◌∷◌, ◌++◌, String, ◌==◌, eq_iff, contains, All,
  filter, arith, Bool-cases, inl, inr, if◌then◌else◌,
}
use mini_code_agent_langgrap.Prelude.Sorting.{All-filter, All-filter_test, All-imp}
use mini_code_agent_langgrap.Continuity.{Floats, ContinuityMemory, record_ids}
use mini_code_agent_langgrap.Continuity.Ids.{All-zip}
use mini_code_agent_langgrap.Continuity.Retention.{
  LongTermRetentionPolicy, Anchored, is_protected, is_anchored, add_anchored, by_anchor,
  any_protected, survivor, survivor_less, protect_survivors, protected_ids,
}

pub All-contains :
    (P : String → Type 0) (xs : List String) (i : String) → All P xs → contains i xs ≡ true → P i
All-contains P (x ∷ xs) i (h, hs) member = elim (Bool-cases (i == x)) [
  | inl e ↦ subst P (sym ((eq_iff i x).0 e)) h
  | inr e ↦ All-contains P xs i hs (ground arith)
]
All-contains P [] i h member = cc

All-append : (P : String → Type 0) (xs ys : List String) → All P xs → All P ys → All P (xs ++ ys)
All-append P [] ys h k = k
All-append P (x ∷ xs) ys (h, hs) k = (h, All-append P xs ys hs k)

append-All : (P : String → Type 0) (xs ys : List String) → All P (xs ++ ys) → All P xs
append-All P [] ys h = tt
append-All P (x ∷ xs) ys (h, hs) = (h, append-All P xs ys hs)

-- The protected ids are those of records whose source is valid.
module _ {F : Type 0} (floats : Floats F) (P : String → Type 0) where
  abbrev At : ContinuityMemory F → Type 0
  At m = P m.record_id

  abbrev Members : String × ContinuityMemory F × List (ContinuityMemory F) → Type 0
  Members g = At g.1 × All At g.2

  All-record_ids : (ms : List (ContinuityMemory F)) → All At ms → All P (record_ids ms)
  All-record_ids [] h = tt
  All-record_ids (m ∷ ms) (h, hs) = (h, All-record_ids ms hs)

  record_ids-All : (ms : List (ContinuityMemory F)) → All P (record_ids ms) → All At ms
  record_ids-All [] h = tt
  record_ids-All (m ∷ ms) (h, hs) = (h, record_ids-All ms hs)

  All-snoc :
      (ms : List (ContinuityMemory F)) (m : ContinuityMemory F)
      → All At ms
      → At m
      → All At (ms ++ (m ∷ []))
  All-snoc [] m h k = (k, tt)
  All-snoc (x ∷ ms) m (h, hs) k = (h, All-snoc ms m hs k)

  survivor-At :
      (best : ContinuityMemory F) (ms : List (ContinuityMemory F))
      → At best
      → All At ms
      → At (survivor floats best ms)
  unfolding survivor
  survivor-At best [] h hs = h
  survivor-At best (m ∷ ms) h (k, ks) =
      survivor-At (if survivor_less floats best m then m else best) ms
        (chosen (survivor_less floats best m)) ks
    where
      chosen : (b : Bool) → At (if b then m else best)
      chosen true = k
      chosen false = h

  add_anchored-Members :
      (m : ContinuityMemory F) (groups : Anchored floats)
      → At m
      → All Members groups
      → All Members (add_anchored floats m groups)
  unfolding add_anchored
  add_anchored-Members m [] h hs = ((h, tt), tt)
  add_anchored-Members m ((anchor, first, more) ∷ rest) h ((f, fs), hs) =
      elim (Bool-cases (anchor == m.identity_anchor)) [
        | inl e ↦ rw e ((f, All-snoc more m fs h), hs)
        | inr e ↦ rw e ((f, fs), add_anchored-Members m rest h hs)
      ]

  by_anchor-Members :
      (ms : List (ContinuityMemory F)) (groups : Anchored floats)
      → All (λ m. m.source_valid ≡ true → At m) ms
      → All Members groups
      → All Members (by_anchor floats ms groups)
  unfolding by_anchor
  by_anchor-Members [] groups h hs = hs
  by_anchor-Members (m ∷ ms) groups (h, rest) hs = elim (Bool-cases (is_anchored floats m)) [
    | inl e ↦ rw e (
        by_anchor-Members ms (add_anchored floats m groups) rest
          (add_anchored-Members m groups (h (ground arith)) hs))
    | inr e ↦ rw e (by_anchor-Members ms groups rest hs)
  ]

  protect_survivors-All :
      (groups : Anchored floats) (ids : List String)
      → All Members groups
      → All P ids
      → All P (protect_survivors floats groups ids)
  unfolding protect_survivors
  protect_survivors-All [] ids h hs = hs
  protect_survivors-All ((anchor, first, more) ∷ rest) ids ((f, fs), h) hs =
      elim (Bool-cases (any_protected floats ids (first ∷ more))) [
        | inl e ↦ rw e (protect_survivors-All rest ids h hs)
        | inr e ↦ rw e (
            protect_survivors-All rest (ids ++ ((survivor floats first more).record_id ∷ [])) h
              (All-append P ids _ hs (survivor-At first more f fs, tt)))
      ]

  pub protected_ids-All :
      (ms : List (ContinuityMemory F)) (p : LongTermRetentionPolicy)
      → All (λ m. m.source_valid ≡ true → At m) ms
      → All P (protected_ids floats ms p)
  unfolding protected_ids is_protected
  protected_ids-All ms p h =
      let own = All-record_ids (filter (is_protected floats p) ms) (
        All-imp (filter (is_protected floats p) ms) (λ m t. t.1 (ground arith))
          (All-zip _ _ (filter (is_protected floats p) ms)
            (All-filter_test (is_protected floats p) ms)
            (All-filter _ (is_protected floats p) ms h))) in
      elim (Bool-cases p.preserve_anchor_coverage) [
        | inr e ↦ rw e own
        | inl e ↦
            rw e
              (protect_survivors-All (by_anchor floats ms []) _ (by_anchor-Members ms [] h tt) own)
      ]
