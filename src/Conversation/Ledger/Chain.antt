-- ===== src/Conversation/Ledger/Chain.antt =====
-- What an append does to a log that reads, and what a log that reads is.
use Prim.Native.String.{count}
use mini_code_agent_langgrap.Prelude.{
  ◌≡◌, refl, ◌∙◌, ap, ap₂, ℕ, suc, true, List, [], ◌∷◌, ◌++◌, Option, none, some, String, ok,
  eq_refl, arith, Option-cases, inl, inr,
}
use mathlib.Core.Option
use mini_code_agent_langgrap.Prelude.Results.{>>=-eq-ok}
use mini_code_agent_langgrap.Prelude.Json.{Json, obj, Fields, get}
use mini_code_agent_langgrap.Prelude.Library.{Library}
use mini_code_agent_langgrap.Receipt.{to_int, text_of}
use mini_code_agent_langgrap.Conversation.Ledger.{
  Disk, envelope, is_expected, check_schema, check_binding, check_mark, verify_envelope, objects,
  last_line, object_of, read_row, read_rows, to_log, chain_rows, next_link,
}

module _ (lib : Library) (key log_name : String)
    (digests : (k t : String) → count (lib.hmac_hex k t) ≡ 64) where
  -- An envelope verifies, at its own place in the log.
  pub verify_envelope-envelope :
      (sequence : ℕ) (previous : String) (payload : Fields) (expected : Option ℕ)
      → is_expected expected sequence ≡ true
      → verify_envelope lib key
          (envelope lib key log_name sequence previous payload)
          log_name
          expected
        ≡ ok sequence
  unfolding verify_envelope envelope check_binding check_mark check_schema to_int
  verify_envelope-envelope sequence previous payload expected h = simp (eq_refl, h, digests)

pub ok-eq : {A : Type 0} {a b : A} → ok a ≡ ok b → a ≡ b
ok-eq h = cc

abbrev pub last_row : List Fields → Option Fields
last_row [] = none
last_row (row ∷ rest) = elim (last_row rest) [ none ↦ some row | some later ↦ some later ]

module _ (lib : Library) (key log_name : String) where
  -- A row that verifies at a place verifies anywhere, with the sequence number of that place.
  pub verify_envelope-anywhere :
      (row : Fields) (expected sequence : ℕ)
      → verify_envelope lib key row log_name (some expected) ≡ ok sequence
      → (verify_envelope lib key row log_name none ≡ ok sequence) × (sequence ≡ expected)
  unfolding verify_envelope
  verify_envelope-anywhere row expected sequence h = ground arith

  unfoldable pub link : ℕ → String → List Fields → ℕ × String
  link sequence previous [] = (sequence, previous)
  link sequence previous (row ∷ rest) =
      link (suc sequence) (text_of lib (get "hmac_sha256" row)) rest

  -- A row that fits behind rows that read is read behind them.
  pub read_rows-snoc :
      (rows : List Fields) (sequence : ℕ) (previous : String) (payloads : List Fields)
      (row payload : Fields)
      → read_rows lib key log_name sequence previous rows ≡ ok payloads
      → read_row lib key log_name
          (link sequence previous rows).0
          (link sequence previous rows).1
          row
        ≡ ok payload
      → read_rows lib key log_name sequence previous (rows ++ (row ∷ []))
        ≡ ok (payloads ++ (payload ∷ []))
  unfolding read_rows link
  read_rows-snoc [] sequence previous payloads row payload h r =
      let none_read : [] ≡ payloads = ok-eq h in rw (← none_read, r)
  read_rows-snoc (first ∷ rest) sequence previous payloads row payload h r =
      let (q, one, h1) = >>=-eq-ok (read_row lib key log_name sequence previous first) _ h in
      let (qs, more, h2) =
        >>=-eq-ok
          (read_rows lib key log_name (suc sequence) (text_of lib (get "hmac_sha256" first)) rest) _
          h1 in
      let all_read : q ∷ qs ≡ payloads = ok-eq h2 in
      rw (
        ← all_read,
        one,
        read_rows-snoc rest (suc sequence) (text_of lib (get "hmac_sha256" first)) qs row payload
            more r,
      )

  -- The last of the rows that read has the link that follows them.
  pub next_link-last :
      (rows : List Fields) (sequence : ℕ) (previous : String) (payloads : List Fields)
      (row : Fields)
      → read_rows lib key log_name sequence previous rows ≡ ok payloads
      → last_row rows ≡ some row
      → next_link lib key log_name (some row) ≡ ok (link sequence previous rows)
  unfolding read_rows link read_row next_link
  next_link-last [] sequence previous payloads row h l = cc
  next_link-last (first ∷ []) sequence previous payloads row h l =
      let (q, one, h1) = >>=-eq-ok (read_row lib key log_name sequence previous first) _ h in
      let (m, verified, h2) =
        >>=-eq-ok (verify_envelope lib key first log_name (some sequence)) _ one in
      let (anywhere, same) = verify_envelope-anywhere first sequence m verified in
      let is_first : first ≡ row = cc in rw (← is_first, anywhere, same)
  next_link-last (first ∷ second ∷ rest) sequence previous payloads row h l =
      let (q, one, h1) = >>=-eq-ok (read_row lib key log_name sequence previous first) _ h in
      let (qs, more, h2) =
        >>=-eq-ok
          (read_rows lib key log_name (suc sequence) (text_of lib (get "hmac_sha256" first))
            (second ∷ rest))
          _ h1 in
      next_link-last (second ∷ rest) (suc sequence) (text_of lib (get "hmac_sha256" first)) qs row
        more (ground arith)

-- Lines that are objects are the lines of the file of those objects.
pub objects-to_log :
    (lines : List (Option Json)) (rows : List Fields)
    → objects lines ≡ ok rows
    → lines ≡ (to_log rows).lines
unfolding objects
objects-to_log [] rows h = let nothing : [] ≡ rows = ok-eq h in rw (← nothing)
objects-to_log (line ∷ rest) rows h =
    let (row, one, h1) = >>=-eq-ok (object_of line) _ h in
    let (more, others, h2) = >>=-eq-ok (objects rest) _ h1 in
    let all_rows : row ∷ more ≡ rows = ok-eq h2 in
    ap₂ (λ x xs. x ∷ xs) (object_of-ok line one) (objects-to_log rest more others)
    ∙ ap (λ x. (to_log x).lines) all_rows
  where
    object_of-ok : (l : Option Json) {r : Fields} → object_of l ≡ ok r → l ≡ some (obj r)
    object_of-ok none e = cc
    object_of-ok (some (obj r)) e = cc
    object_of-ok (some _) e = cc

pub to_log-objects : (rows : List Fields) → objects (to_log rows).lines ≡ ok rows
unfolding objects
to_log-objects [] = refl
to_log-objects (row ∷ rest) = rw (to_log-objects rest)

pub to_log-snoc :
    (rows : List Fields) (row : Fields)
    → (to_log rows).lines ++ (some (obj row) ∷ []) ≡ (to_log (rows ++ (row ∷ []))).lines
to_log-snoc [] row = refl
to_log-snoc (first ∷ rest) row = ap (λ x. some (obj first) ∷ x) (to_log-snoc rest row)

pub last_line-to_log :
    (rows : List Fields)
    → last_line (to_log rows).lines ≡ Option.map (λ row. some (obj row)) (last_row rows)
unfolding last_line
last_line-to_log [] = refl
last_line-to_log (row ∷ rest) = elim (Option-cases (last_row rest)) [
  | inl e ↦ rw (last_line-to_log rest, e)
  | inr (later, e) ↦ rw (last_line-to_log rest, e)
]

module _ (lib : Library) (disk : Disk) (key log_name : String)
    (digests : (k t : String) → count (lib.hmac_hex k t) ≡ 64) where
  -- The envelope with a link is read at that link.
  pub read_row-envelope :
      (sequence : ℕ) (previous : String) (payload : Fields)
      → read_row lib key log_name sequence previous
          (envelope lib key log_name sequence previous payload)
        ≡ ok payload
  unfolding read_row
  read_row-envelope sequence previous payload = rw (
    verify_envelope-envelope lib key log_name digests sequence previous payload (some sequence)
        (ground arith),
    payload_of_envelope,
    previous_of_envelope,
    eq_refl,
  )
    where
      payload_of_envelope :
          get "payload" (envelope lib key log_name sequence previous payload) ≡ some (obj payload)
      payload_of_envelope = unfold envelope in refl

      previous_of_envelope :
          text_of lib (get "previous_hmac" (envelope lib key log_name sequence previous payload))
          ≡ previous
      previous_of_envelope = unfold envelope in refl

  -- A chain of envelopes reads as the payloads it was made of.
  pub read_rows-chain_rows :
      (payloads : List Fields) (sequence : ℕ) (previous : String)
      → read_rows lib key log_name sequence previous
          (chain_rows lib key log_name sequence previous payloads)
        ≡ ok payloads
  unfolding read_rows chain_rows
  read_rows-chain_rows [] sequence previous = refl
  read_rows-chain_rows (payload ∷ rest) sequence previous =
      rw (read_row-envelope sequence previous payload, read_rows-chain_rows rest (suc sequence) _)
