-- ===== src/Continuity/Ids.antt =====
-- The ids of records: filters and sorts of records, and records whose ids differ.
use mini_code_agent_langgrap.Prelude.{
  ◌≡◌, refl, ◌∙◌, ap, ◌+◌, Bool, true, false, not, ◌&&◌, ◌||◌, List, [], ◌∷◌, String, ◌==◌, eq_refl,
  contains, All, filter, sort_by, arith, Bool-cases, inl, inr,
}
use mini_code_agent_langgrap.Prelude.Lists.{insert_by}
use mini_code_agent_langgrap.Prelude.Sorting.{eq_comm, All-imp, filter-true, filter-false}
use mini_code_agent_langgrap.Continuity.{ContinuityMemory, chars, record_ids, sum_chars}
use mini_code_agent_langgrap.Continuity.Retention.{has_duplicates}

module _ {A : Type 0} where
  pub filter-ext :
      (p q : A → Bool) (xs : List A) → All (λ x. p x ≡ q x) xs → filter p xs ≡ filter q xs
  unfolding filter
  filter-ext p q [] h = refl
  filter-ext p q (x ∷ xs) (e, es) = let rest = filter-ext p q xs es in rw (e, rest) refl

  pub filter-filter :
      (p q : A → Bool) (xs : List A) → filter p (filter q xs) ≡ filter (λ x. q x && p x) xs
  unfolding filter
  filter-filter p q [] = refl
  filter-filter p q (x ∷ xs) =
      let rest = filter-filter p q xs in
      elim (Bool-cases (q x)) [
        | inl e ↦ elim (Bool-cases (p x)) [
          | inl f ↦ rw (e, f, rest) refl
          | inr f ↦ rw (e, f, rest) refl
        ]
        | inr e ↦ rw (e, rest) refl
      ]

  pub All-pure : (P : A → Type 0) (xs : List A) → ((x : A) → P x) → All P xs
  All-pure P [] h = tt
  All-pure P (x ∷ xs) h = (h x, All-pure P xs h)

  pub All-zip : (P Q : A → Type 0) (xs : List A) → All P xs → All Q xs → All (λ x. P x × Q x) xs
  All-zip P Q [] p q = tt
  All-zip P Q (x ∷ xs) (p, ps) (q, qs) = ((p, q), All-zip P Q xs ps qs)

module _ {F : Type 0} where
  pub filter-record_ids :
      (q : String → Bool) (ms : List (ContinuityMemory F))
      → filter q (record_ids ms) ≡ record_ids (filter (λ m. q m.record_id) ms)
  unfolding filter
  filter-record_ids q [] = refl
  filter-record_ids q (m ∷ ms) =
      let rest = filter-record_ids q ms in
      elim (Bool-cases (q m.record_id)) [ inl e ↦ rw (e, rest) refl | inr e ↦ rw (e, rest) refl ]

  pub found :
      (ms : List (ContinuityMemory F)) → All (λ m. contains m.record_id (record_ids ms) ≡ true) ms
  found [] = tt
  found (x ∷ ms) = (
    ap (λ b. b || contains x.record_id (record_ids ms)) (eq_refl x.record_id),
    All-imp ms (λ m h. ground arith) (found ms),
  )

  -- The records have other ids than one that is not among them.
  pub others :
      (a : String) (ms : List (ContinuityMemory F))
      → contains a (record_ids ms) ≡ false
      → All (λ m. (m.record_id == a) ≡ false) ms
  others a [] h = tt
  others a (m ∷ ms) h =
      let swap = eq_comm m.record_id a in (ground arith, others a ms (ground arith))

  pub contains-filter_ids :
      (a : String) (q : ContinuityMemory F → Bool) (ms : List (ContinuityMemory F))
      → contains a (record_ids ms) ≡ false
      → contains a (record_ids (filter q ms)) ≡ false
  unfolding filter
  contains-filter_ids a q [] h = refl
  contains-filter_ids a q (m ∷ ms) h =
      let rest = contains-filter_ids a q ms (ground arith) in
      elim (Bool-cases (q m)) [ inl e ↦ rw e (ground arith) | inr e ↦ rw e rest ]

  pub has_duplicates-filter :
      (q : ContinuityMemory F → Bool) (ms : List (ContinuityMemory F))
      → has_duplicates (record_ids ms) ≡ false
      → has_duplicates (record_ids (filter q ms)) ≡ false
  unfolding has_duplicates filter
  has_duplicates-filter q [] h = refl
  has_duplicates-filter q (m ∷ ms) h =
      let rest = has_duplicates-filter q ms (ground arith) in
      let other = contains-filter_ids m.record_id q ms (ground arith) in
      elim (Bool-cases (q m)) [ inl e ↦ rw e (ground arith) | inr e ↦ rw e rest ]

  module _ (lt : ContinuityMemory F → ContinuityMemory F → Bool) where
    contains-insert_ids :
        (a : String) (x : ContinuityMemory F) (ys : List (ContinuityMemory F))
        → contains a (record_ids (insert_by lt x ys))
          ≡ a == x.record_id || contains a (record_ids ys)
    unfolding insert_by
    contains-insert_ids a x [] = refl
    contains-insert_ids a x (y ∷ ys) =
        let rest = contains-insert_ids a x ys in
        elim (Bool-cases (lt y x)) [ inl e ↦ rw e (ground arith) | inr e ↦ rw e refl ]

    has_duplicates-insert :
        (x : ContinuityMemory F) (ys : List (ContinuityMemory F))
        → has_duplicates (record_ids (insert_by lt x ys)) ≡ has_duplicates (record_ids (x ∷ ys))
    unfolding insert_by has_duplicates
    has_duplicates-insert x [] = refl
    has_duplicates-insert x (y ∷ ys) =
        let rest = has_duplicates-insert x ys in
        let other = contains-insert_ids y.record_id x ys in
        let swap = eq_comm y.record_id x.record_id in
        elim (Bool-cases (lt y x)) [ inl e ↦ rw e (ground arith) | inr e ↦ rw e refl ]

    contains-sort_ids :
        (a : String) (xs : List (ContinuityMemory F))
        → contains a (record_ids (sort_by lt xs)) ≡ contains a (record_ids xs)
    unfolding sort_by
    contains-sort_ids a [] = refl
    contains-sort_ids a (x ∷ xs) =
        contains-insert_ids a x (sort_by lt xs)
        ∙ ap (λ b. a == x.record_id || b) (contains-sort_ids a xs)

    pub has_duplicates-sort :
        (xs : List (ContinuityMemory F))
        → has_duplicates (record_ids (sort_by lt xs)) ≡ has_duplicates (record_ids xs)
    unfolding sort_by has_duplicates
    has_duplicates-sort [] = refl
    has_duplicates-sort (x ∷ xs) =
        let rest = has_duplicates-sort xs in
        let other = contains-sort_ids x.record_id xs in
        has_duplicates-insert x (sort_by lt xs) ∙ ground arith

  -- The characters of the records, one of which goes.
  pub sum_chars-without :
      (xs : List (ContinuityMemory F))
      → has_duplicates (record_ids xs) ≡ false
      → All
          (λ c.
            (q : ContinuityMemory F → Bool)
            → q c ≡ true
            → sum_chars (filter q xs)
              ≡ sum_chars (filter (λ m. q m && not (m.record_id == c.record_id)) xs) + chars c)
          xs
  unfolding has_duplicates
  sum_chars-without [] h = tt
  sum_chars-without (x ∷ xs) h = (
    head,
    All-imp xs tail (
        All-zip _ _ xs (others x.record_id xs (ground arith))
          (sum_chars-without xs (ground arith))),
  )
    where
      head :
          (q : ContinuityMemory F → Bool)
          → q x ≡ true
          → sum_chars (filter q (x ∷ xs))
            ≡ sum_chars (filter (λ m. q m && not (m.record_id == x.record_id)) (x ∷ xs)) + chars x
      head q kept =
          let same = eq_refl x.record_id in
          let gone =
            filter-false (λ m. q m && not (m.record_id == x.record_id)) x xs (ground arith) in
          let stay =
            filter-ext (λ m. q m && not (m.record_id == x.record_id)) q xs
              (All-imp xs (λ m e. ground arith)
                (others x.record_id xs (unfold has_duplicates in ground arith))) in
          rw (filter-true q x xs kept, gone, stay) (unfold sum_chars in omega arith)

      tail :
          (c : ContinuityMemory F)
          → ((c.record_id == x.record_id) ≡ false)
            × ((q : ContinuityMemory F → Bool)
                → q c ≡ true
                → sum_chars (filter q xs)
                  ≡ sum_chars (filter (λ m. q m && not (m.record_id == c.record_id)) xs) + chars c)
          → (q : ContinuityMemory F → Bool) → q c ≡ true
          → sum_chars (filter q (x ∷ xs))
            ≡ sum_chars (filter (λ m. q m && not (m.record_id == c.record_id)) (x ∷ xs)) + chars c
      tail c (apart, rest) q kept =
          let swap = eq_comm c.record_id x.record_id in
          let others_sum = rest q kept in
          elim (Bool-cases (q x)) [
            | inl e ↦
                let stays =
                  filter-true (λ m. q m && not (m.record_id == c.record_id)) x xs (ground arith) in
                rw (filter-true q x xs e, stays) (unfold sum_chars in omega arith)
            | inr e ↦
                let goes =
                  filter-false (λ m. q m && not (m.record_id == c.record_id)) x xs (ground arith) in
                rw (filter-false q x xs e, goes) others_sum
          ]
