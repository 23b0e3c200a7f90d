-- ===== src/Lifecycle/Retire.antt =====
-- Which records `select_retirements` retires.
use mini_code_agent_langgrap.Prelude.{
  ◌≡◌, refl, ap, subst, ℕ, ◌≤◌, true, false, List, [], ◌∷◌, ◌++◌, map, inl, inr, Bool-cases, arith,
  leb,
}
use mini_code_agent_langgrap.Lifecycle.{
  CapacityPolicy, LifecycleRecord, exceeds, oldest_first, newest_first, insert_newest_first,
  reverse, retire_loop, select_retirements,
}

-- `retired` is the shortest prefix of the records whose removal leaves a rest that fits.
pub data IsShortest (p : CapacityPolicy) (incoming : ℕ)
    : List LifecycleRecord → List LifecycleRecord → Type 0 where
  emptied : IsShortest p incoming [] []
  fits :
      (kept : List LifecycleRecord)
      → exceeds p incoming kept ≡ false
      → IsShortest p incoming [] kept
  retire :
      (r : LifecycleRecord) (retired kept : List LifecycleRecord)
      → exceeds p incoming (r ∷ (retired ++ kept)) ≡ true
      → IsShortest p incoming retired kept
      → IsShortest p incoming (r ∷ retired) kept

retire_loop-IsShortest :
    (p : CapacityPolicy) (incoming : ℕ) (records : List LifecycleRecord)
    → (retired kept : List LifecycleRecord) × (records ≡ retired ++ kept)
      × (retire_loop p incoming records ≡ map (λ r. r.record_id) retired)
      × IsShortest p incoming retired kept
unfolding retire_loop
retire_loop-IsShortest p incoming [] = ([], [], refl, refl, emptied)
retire_loop-IsShortest p incoming (r ∷ rest) = elim (Bool-cases (exceeds p incoming (r ∷ rest))) [
  | inl full ↦
      let (retired, kept, split, ids, shortest) = retire_loop-IsShortest p incoming rest in
      (
        r ∷ retired,
        kept,
        ap (λ x. r ∷ x) split,
        cc,
        retire r retired kept (subst (λ x. exceeds p incoming (r ∷ x) ≡ true) split full) shortest,
      )
  | inr room ↦ ([], r ∷ rest, refl, cc, fits (r ∷ rest) room)
]

-- Every record of the list is at least as new as `t`.
pub data AllSince (t : ℕ) : List LifecycleRecord → Type 0 where
  none_since : AllSince t []
  since :
      (r : LifecycleRecord) (rs : List LifecycleRecord)
      → t ≤ r.recorded_at_ns
      → AllSince t rs
      → AllSince t (r ∷ rs)

pub data IsOldestFirst : List LifecycleRecord → Type 0 where
  nothing : IsOldestFirst []
  oldest :
      (r : LifecycleRecord) (rs : List LifecycleRecord)
      → AllSince r.recorded_at_ns rs
      → IsOldestFirst rs
      → IsOldestFirst (r ∷ rs)

-- Every record of the list is at most as new as `t`, and the order that sorting gives.
data AllUntil (t : ℕ) : List LifecycleRecord → Type 0 where
  none_until : AllUntil t []
  until :
      (r : LifecycleRecord) (rs : List LifecycleRecord)
      → r.recorded_at_ns ≤ t
      → AllUntil t rs
      → AllUntil t (r ∷ rs)

data IsNewestFirst : List LifecycleRecord → Type 0 where
  empty : IsNewestFirst []
  newest :
      (r : LifecycleRecord) (rs : List LifecycleRecord)
      → AllUntil r.recorded_at_ns rs
      → IsNewestFirst rs
      → IsNewestFirst (r ∷ rs)

AllUntil-weaken : {t u : ℕ} {rs : List LifecycleRecord} → t ≤ u → AllUntil t rs → AllUntil u rs
AllUntil-weaken h none_until = none_until
AllUntil-weaken h (until r rs e more) = until r rs (ground arith) (AllUntil-weaken h more)

insert_newest_first-AllUntil :
    {t : ℕ} (r : LifecycleRecord) (rs : List LifecycleRecord)
    → r.recorded_at_ns ≤ t
    → AllUntil t rs
    → AllUntil t (insert_newest_first r rs)
unfolding insert_newest_first
insert_newest_first-AllUntil r _ h none_until = until r [] h none_until
insert_newest_first-AllUntil r _ h (until x xs e more) =
    elim (Bool-cases (leb x.recorded_at_ns r.recorded_at_ns)) [
      | inl le ↦ rw le (until r (x ∷ xs) h (until x xs e more))
      | inr gt ↦ rw gt (until x _ e (insert_newest_first-AllUntil r xs h more))
    ]

insert_newest_first-IsNewestFirst :
    (r : LifecycleRecord) (rs : List LifecycleRecord)
    → IsNewestFirst rs
    → IsNewestFirst (insert_newest_first r rs)
unfolding insert_newest_first
insert_newest_first-IsNewestFirst r _ empty = newest r [] none_until empty
insert_newest_first-IsNewestFirst r _ (newest x xs older more) =
    elim (Bool-cases (leb x.recorded_at_ns r.recorded_at_ns)) [
      | inl le ↦ rw le (
          newest r (x ∷ xs) (until x xs (ground arith) (AllUntil-weaken (ground arith) older))
            (newest x xs older more))
      | inr gt ↦ rw gt (
          newest x _ (insert_newest_first-AllUntil r xs (ground arith) older)
            (insert_newest_first-IsNewestFirst r xs more))
    ]

newest_first-IsNewestFirst : (rs : List LifecycleRecord) → IsNewestFirst (newest_first rs)
unfolding newest_first
newest_first-IsNewestFirst [] = empty
newest_first-IsNewestFirst (r ∷ rs) =
    insert_newest_first-IsNewestFirst r (newest_first rs) (newest_first-IsNewestFirst rs)

snoc-AllUntil :
    {t : ℕ} (rs : List LifecycleRecord) (x : LifecycleRecord)
    → AllUntil t rs
    → x.recorded_at_ns ≤ t
    → AllUntil t (rs ++ (x ∷ []))
snoc-AllUntil _ x none_until h = until x [] h none_until
snoc-AllUntil _ x (until r rs e more) h = until r _ e (snoc-AllUntil rs x more h)

reverse-AllUntil : {t : ℕ} (rs : List LifecycleRecord) → AllUntil t rs → AllUntil t (reverse rs)
reverse-AllUntil _ none_until = none_until
reverse-AllUntil _ (until r rs e more) = snoc-AllUntil (reverse rs) r (reverse-AllUntil rs more) e

snoc-AllSince :
    {t : ℕ} (rs : List LifecycleRecord) (x : LifecycleRecord)
    → AllSince t rs
    → t ≤ x.recorded_at_ns
    → AllSince t (rs ++ (x ∷ []))
snoc-AllSince _ x none_since h = since x [] h none_since
snoc-AllSince _ x (since r rs e more) h = since r _ e (snoc-AllSince rs x more h)

snoc-IsOldestFirst :
    (rs : List LifecycleRecord) (x : LifecycleRecord)
    → AllUntil x.recorded_at_ns rs
    → IsOldestFirst rs
    → IsOldestFirst (rs ++ (x ∷ []))
snoc-IsOldestFirst _ x until_x nothing = oldest x [] none_since nothing
snoc-IsOldestFirst _ x (until _ _ e more) (oldest r rs newer sorted) =
    oldest r _ (snoc-AllSince rs x newer e) (snoc-IsOldestFirst rs x more sorted)

reverse-IsOldestFirst : (rs : List LifecycleRecord) → IsNewestFirst rs → IsOldestFirst (reverse rs)
reverse-IsOldestFirst _ empty = nothing
reverse-IsOldestFirst _ (newest r rs older more) =
    snoc-IsOldestFirst (reverse rs) r (reverse-AllUntil rs older) (reverse-IsOldestFirst rs more)

-- The ids returned are those of a prefix of the records in order of age, the oldest first: the
-- shortest prefix whose removal leaves room for the incoming record within both limits, or all of them.
pub select_retirements-IsShortest :
    (records : List LifecycleRecord) (incoming : ℕ) (p : CapacityPolicy)
    → IsOldestFirst (oldest_first records)
      × (retired kept : List LifecycleRecord) × (oldest_first records ≡ retired ++ kept)
      × (select_retirements records incoming p ≡ map (λ r. r.record_id) retired)
      × IsShortest p incoming retired kept
unfolding select_retirements oldest_first
select_retirements-IsShortest records incoming p =
    let (retired, kept, split, ids, shortest) =
      retire_loop-IsShortest p incoming (oldest_first records) in
    (
      reverse-IsOldestFirst (newest_first records) (newest_first-IsNewestFirst records),
      retired,
      kept,
      split,
      ids,
      shortest,
    )
