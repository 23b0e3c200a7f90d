-- ===== src/Continuity/Recall/Budget.antt =====
-- The budget of a continuity context, and the facts that it leaves out.
use Prim.Native.String.{count}
use mini_code_agent_langgrap.Prelude.{
  ◌≡◌, refl, sym, ap, subst, ℕ, suc, ◌+◌, ◌≤◌, true, List, [], ◌∷◌, ◌++◌, String, length, map, join,
  arith, Bool-cases, inl, inr,
}
use mini_code_agent_langgrap.Prelude.Texts.Join.{count-join_one, count-join_snoc}
use mini_code_agent_langgrap.Prelude.Lists.{length-append}
use mini_code_agent_langgrap.Continuity.{Floats, ContinuityMemory, chars}
use mini_code_agent_langgrap.Continuity.Recall.{
  ContinuityRecallPolicy, RecallItem, separator, has_place, select_loop, eligible_of, recall_item,
  select_continuity_context,
}

-- The texts of items, as lines.
abbrev pub lines : List RecallItem → String
lines items = join "\n" (map (λ i. i.text) items)

module _ {F : Type 0} (p : ContinuityRecallPolicy) where
  -- The count of characters is that of the lines of the selected records, and both budgets are kept.
  pub record Keeps (taken : List (ContinuityMemory F) × ℕ) : Type 0 where
    exact : count (lines (map recall_item taken.0)) ≡ taken.1
    few : length taken.0 ≤ p.max_items
    small : taken.1 ≤ p.max_chars

  count-snoc :
      (selected : List (ContinuityMemory F)) (m : ContinuityMemory F)
      → count (lines (map recall_item (selected ++ (m ∷ []))))
        ≡ count (lines (map recall_item selected)) + (separator selected + chars m)
  count-snoc [] m = omega (arith, count-join_one "\n" m.text)
  count-snoc (x ∷ xs) m =
      rw (texts-snoc xs)
        (count-join_snoc "\n" x.text (map (λ i. i.text) (map recall_item xs)) m.text)
    where
      texts-snoc :
          (ys : List (ContinuityMemory F))
          → map (λ i. i.text) (map recall_item (ys ++ (m ∷ [])))
            ≡ map (λ i. i.text) (map recall_item ys) ++ (m.text ∷ [])
      texts-snoc [] = refl
      texts-snoc (y ∷ ys) = ap (λ l. y.text ∷ l) (texts-snoc ys)

  select_loop-Keeps :
      (ms selected : List (ContinuityMemory F)) (context_chars : ℕ)
      → Keeps (selected, context_chars)
      → Keeps (select_loop p ms selected context_chars)
  unfolding select_loop
  select_loop-Keeps [] selected context_chars keeps = keeps
  select_loop-Keeps (m ∷ ms) selected context_chars keeps =
      elim (Bool-cases (has_place p selected context_chars m)) [
        | inr full ↦ rw full (select_loop-Keeps ms selected context_chars keeps)
        | inl room ↦ rw room (
            select_loop-Keeps ms (selected ++ (m ∷ []))
              (context_chars + (separator selected + chars m)) (longer room))
      ]
    where
      longer :
          has_place p selected context_chars m ≡ true
          → Keeps (selected ++ (m ∷ []), context_chars + (separator selected + chars m))
      longer room =
          let exact = keeps.exact in
          let more = count-snoc selected m in
          let size = length-append selected (m ∷ []) in
          record {
            exact = omega arith;
            few = unfold has_place in ground arith;
            small = unfold has_place in ground arith;
          }

length-map : {A B : Type 0} (f : A → B) (xs : List A) → length (map f xs) ≡ length xs
length-map f [] = refl
length-map f (x ∷ xs) = ap suc (length-map f xs)

-- The texts of the items, joined as lines, have the number of characters that the selection states,
-- which is at most `max_chars`, and there are at most `max_items` items.
pub select_continuity_context-within :
    {F : Type 0} (floats : Floats F) (records : List (ContinuityMemory F))
    (p : ContinuityRecallPolicy)
    → let s = select_continuity_context floats records p in
      (count (lines s.items) ≡ s.context_chars)
      × (s.context_chars ≤ p.max_chars)
      × (length s.items ≤ p.max_items)
unfolding select_continuity_context
select_continuity_context-within floats records p =
    let eligible = eligible_of floats p records in
    let keeps =
      select_loop-Keeps p eligible [] 0
        (record { exact = refl; few = omega arith; small = omega arith }) in
    let size = length-map recall_item (select_loop p eligible [] 0).0 in
    (keeps.exact, keeps.small, subst (λ n. n ≤ p.max_items) (sym size) keeps.few)
