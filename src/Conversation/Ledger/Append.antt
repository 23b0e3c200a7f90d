-- ===== src/Conversation/Ledger/Append.antt =====
-- A log file as the list of payloads that it reads as: an append adds one, and a migrated file reads
-- as the rows that it had.
use Prim.Native.String.{count}
use mini_code_agent_langgrap.Prelude.{
  ◌≡◌, refl, ◌∙◌, ap, ◌+◌, true, false, List, [], ◌∷◌, ◌++◌, Option, none, some, String, Result, ok,
  ltb, is_empty, Option-cases, inl, inr,
}
use mathlib.Core.Option
use mini_code_agent_langgrap.Prelude.Results.{>>=-eq-ok, raise_if-eq-ok}
use mini_code_agent_langgrap.Prelude.Json.{obj, Fields}
use mini_code_agent_langgrap.Prelude.Library.{Library}
use mini_code_agent_langgrap.Conversation.Ledger.{
  Log, Disk, max_state_file_bytes, fail_if, envelope, objects, read_raw_rows, last_line,
  read_last_raw_row, read_rows, read, append_raw_row, next_link, append_unlocked, log_of, with_row,
  to_log, chain_rows, migrate_legacy, validate_all, is_migrated,
}
use mini_code_agent_langgrap.Conversation.Ledger.Chain.{
  link, ok-eq, last_row, read_rows-snoc, next_link-last, read_row-envelope, read_rows-chain_rows,
  objects-to_log, to_log-objects, to_log-snoc, last_line-to_log,
}

-- The envelope of a payload behind the rows: its number is that of the rows before it, and it has the
-- digest of the last of them.
abbrev pub following_row : Library → String → String → List Fields → Fields → Fields
following_row lib key log_name rows payload =
    let (n, previous) = link lib key log_name 0 "" rows in
    envelope lib key log_name n previous payload

module _ (lib : Library) (disk : Disk) (key log_name : String) where
  last_object :
      (log : Log) (rows : List Fields)
      → log.lines ≡ (to_log rows).lines
      → ltb max_state_file_bytes (disk.size log) ≡ false
      → read_last_raw_row disk (some log) ≡ ok (last_row rows)
  unfolding read_last_raw_row
  last_object log rows lines fits = elim (Option-cases (last_row rows)) [
    | inl e ↦
        let last : last_line log.lines ≡ none =
          ap last_line lines ∙ last_line-to_log rows ∙ ap (Option.map (λ row. some (obj row))) e in
        rw (fits, last, e)
    | inr (row, e) ↦
        let last : last_line log.lines ≡ some (some (obj row)) =
          ap last_line lines ∙ last_line-to_log rows ∙ ap (Option.map (λ row. some (obj row))) e in
        rw (fits, last, e)
  ]

  -- What `append` reads of a file whose rows are known.
  read_last_raw_row-rows :
      (file : Option Log) (rows : List Fields)
      → read_raw_rows disk file ≡ ok rows
      → ((log_of file).lines ≡ (to_log rows).lines)
        × (read_last_raw_row disk file ≡ ok (last_row rows))
  unfolding read_raw_rows
  read_last_raw_row-rows none rows h =
      let nothing : [] ≡ rows = ok-eq h in
      (
        ap (λ x. (to_log x).lines) nothing,
        unfold read_last_raw_row in ap (λ x. ok (last_row x)) nothing,
      )
  read_last_raw_row-rows (some log) rows h =
      let (_, fits, h1) = >>=-eq-ok (fail_if (ltb max_state_file_bytes (disk.size log)) _) _ h in
      let lines = objects-to_log log.lines rows h1 in
      (lines, last_object log rows lines (raise_if-eq-ok _ _ _ fits))

  read-read_rows :
      (file : Option Log) (rows payloads : List Fields)
      → read_raw_rows disk file ≡ ok rows
      → read lib disk key log_name file ≡ ok payloads
      → read_rows lib key log_name 0 "" rows ≡ ok payloads
  unfolding read
  read-read_rows file rows payloads raw h = rw raw at h

  -- The link that an append finds.
  next_link-rows :
      (rows payloads : List Fields)
      → read_rows lib key log_name 0 "" rows ≡ ok payloads
      → next_link lib key log_name (last_row rows) ≡ ok (link lib key log_name 0 "" rows)
  next_link-rows [] payloads h = unfold next_link in unfold link in refl
  next_link-rows (row ∷ rest) payloads h = elim (Option-cases (last_row rest)) [
    | inl e ↦ rw e (next_link-last lib key log_name (row ∷ rest) 0 "" payloads row h (rw e))
    | inr (later, e) ↦
        rw e (next_link-last lib key log_name (row ∷ rest) 0 "" payloads later h (rw e))
  ]

  module _ (digests : (k t : String) → count (lib.hmac_hex k t) ≡ 64)
      (grows : (log : Log) (row : Fields)
        → log.is_ended ≡ true
        → disk.size (with_row log row) ≡ disk.size log + disk.row_size row) where
    read-with_row :
        (log : Log) (rows payloads : List Fields) (row payload : Fields)
        → log.is_ended ≡ true
        → log.lines ≡ (to_log rows).lines
        → read_rows lib key log_name 0 "" (rows ++ (row ∷ [])) ≡ ok (payloads ++ (payload ∷ []))
        → ltb max_state_file_bytes (disk.size log + disk.row_size row) ≡ false
        → read lib disk key log_name (some (with_row log row)) ≡ ok (payloads ++ (payload ∷ []))
    unfolding read read_raw_rows
    read-with_row log rows payloads row payload ended lines readable fits =
        let written : (with_row log row).lines ≡ log.lines ++ (some (obj row) ∷ []) =
          unfold with_row in rw ended refl in
        let all_lines : (with_row log row).lines ≡ (to_log (rows ++ (row ∷ []))).lines =
          written ∙ ap (λ x. x ++ (some (obj row) ∷ [])) lines ∙ to_log-snoc rows row in
        let parsed : objects (with_row log row).lines ≡ ok (rows ++ (row ∷ [])) =
          ap objects all_lines ∙ to_log-objects (rows ++ (row ∷ [])) in
        rw (grows log row ended, fits, parsed, readable)

    -- Where keyed digests have 64 characters and a row adds its size to that of a file: if a file, which
    -- ends with a newline or is empty or missing, has the rows `rows` and reads as `payloads`, the key
    -- is not empty, and there is room for the row that follows them, an append returns the file with
    -- this row as one more line; that file ends with a newline, and it reads as `payloads` and the
    -- payload appended.
    pub read-append_unlocked :
        (file : Option Log) (rows payloads : List Fields) (payload : Fields)
        → (log_of file).is_ended ≡ true
        → read_raw_rows disk file ≡ ok rows
        → read lib disk key log_name file ≡ ok payloads
        → is_empty key ≡ false
        → ltb max_state_file_bytes
            (disk.size (log_of file) + disk.row_size (following_row lib key log_name rows payload))
          ≡ false
        → (log : Log) × (append_unlocked lib disk key log_name file payload ≡ ok log)
          × (log.lines
              ≡ (log_of file).lines
                ++ (some (obj (following_row lib key log_name rows payload)) ∷ []))
          × (log.is_ended ≡ true)
          × (read lib disk key log_name (some log) ≡ ok (payloads ++ (payload ∷ [])))
    unfolding append_unlocked append_raw_row
    read-append_unlocked file rows payloads payload ended raw h has_key room =
        let (lines, last) = read_last_raw_row-rows file rows raw in
        let readable : read_rows lib key log_name 0 "" rows ≡ ok payloads =
          read-read_rows file rows payloads raw h in
        let linked = next_link-rows rows payloads readable in
        let (n, previous) = link lib key log_name 0 "" rows in
        let row : Fields = following_row lib key log_name rows payload in
        (
          with_row (log_of file) row,
          rw (has_key, last, linked, room),
          unfold with_row in rw ended refl,
          unfold with_row in refl,
          read-with_row (log_of file) rows payloads row payload ended lines
              (read_rows-snoc lib key log_name rows 0 "" payloads row payload readable
                (read_row-envelope lib disk key log_name digests n previous payload))
              room,
        )

  module _ (digests : (k t : String) → count (lib.hmac_hex k t) ≡ 64) where
    -- Where keyed digests have 64 characters, an old file whose rows are valid is migrated, if the new
    -- file has room, to one that reads as exactly the rows of the old one.
    pub read-migrate_legacy :
        (validator : Fields → Result (Unit {0})) (file : Option Log) (first : Fields)
        (rest : List Fields)
        → read_raw_rows disk file ≡ ok (first ∷ rest)
        → is_migrated lib first ≡ false
        → validate_all validator (first ∷ rest) ≡ ok tt
        → ltb max_state_file_bytes
            (disk.size (to_log (chain_rows lib key log_name 0 "" (first ∷ rest))))
          ≡ false
        → (log : Log) × (migrate_legacy lib disk key log_name validator file ≡ ok (some log, true))
          × (read lib disk key log_name (some log) ≡ ok (first ∷ rest))
    unfolding migrate_legacy read read_raw_rows
    read-migrate_legacy validator file first rest raw old valid fits =
        let rows : List Fields = chain_rows lib key log_name 0 "" (first ∷ rest) in
        let readable = read_rows-chain_rows lib disk key log_name digests (first ∷ rest) 0 "" in
        (to_log rows, rw (raw, old, valid, fits), rw (fits, to_log-objects rows, readable))
