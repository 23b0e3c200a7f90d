-- ===== src/Conversation/Ledger.antt =====
-- `AuthenticatedConversationLedger` of src/mini_code_agent/conversation_ledger.py. A log file is the
-- list of the JSON values of its lines, `none` for a line that is no JSON, and whether its last line
-- ends with a newline; a missing file is `none`. `Disk` gives the size of a file, and of an encoded
-- row with its newline. Permissions, symbolic links and the lock are not modelled, and the writes of a
-- row are one step.
pub mod Chain
pub mod Append
use Prim.Native.String.{count}
use mini_code_agent_langgrap.Prelude.{
  ℕ, zero, suc, ◌+◌, Bool, true, false, not, ◌&&◌, ◌||◌, List, [], ◌∷◌, ◌++◌, map, Option, none,
  some, String, pos, negsuc, Result, ok, err, ◌==◌, eqb, ltb, is_empty, concat, decimal,
  if◌then◌else◌,
}
use mini_code_agent_langgrap.Prelude.Results.{◌>>=◌, ◌>>◌, raise, raise_if}
use mini_code_agent_langgrap.Prelude.Json.{
  Json, null, bool, int, float, str, arr, obj, Fields, end, field, get, get_default, equals_str,
}
use mini_code_agent_langgrap.Prelude.JsonEquality.{json_eq}
use mini_code_agent_langgrap.Prelude.Library.{Library}
use mini_code_agent_langgrap.Receipt.{to_int, text_of}

abbrev pub log_schema_version : ℕ
log_schema_version = 2

abbrev pub max_state_file_bytes : ℕ
max_state_file_bytes = 268435456

pub record Log : Type 0 where
  pub lines : List (Option Json)
  pub is_ended : Bool

pub record Disk : Type 0 where
  pub size : Log → ℕ
  pub row_size : Fields → ℕ

abbrev pub ledger_error : {A : Type 0} → String → Result A
ledger_error text = raise "ConversationLedgerError" text

abbrev pub fail_if : Bool → String → Result (Unit {0})
fail_if test text = raise_if test "ConversationLedgerError" text

-- The fields that the digest covers.
abbrev pub authenticated : String → Json → String → Fields → Fields
authenticated log_name sequence previous payload =
    field "schema_version" (int (pos log_schema_version)) (
      field "log_name" (str log_name) (
        field "sequence" sequence
          (field "previous_hmac" (str previous) (field "payload" (obj payload) end))))

abbrev pub mark : Library → String → Fields → String
mark lib key fields = lib.hmac_hex key (lib.canonical_json (obj fields))

-- `_envelope`; the digest is a field after the others, which `get` does not tell apart.
unfoldable pub envelope : Library → String → String → ℕ → String → Fields → Fields
envelope lib key log_name sequence previous payload =
    field "hmac_sha256"
      (str (mark lib key (authenticated log_name (int (pos sequence)) previous payload)))
      (authenticated log_name (int (pos sequence)) previous payload)

-- An `int` that is not negative; a bool is an `int`.
abbrev pub sequence_of : Option Json → Option ℕ
sequence_of (some (int (pos n))) = some n
sequence_of (some (bool true)) = some 1
sequence_of (some (bool false)) = some 0
sequence_of _ = none

abbrev pub is_expected : Option ℕ → ℕ → Bool
is_expected none n = true
is_expected (some m) n = eqb n m

abbrev pub str_of_field : String → Option Json → Result String
str_of_field error (some (str s)) = ok s
str_of_field error _ = ledger_error error

abbrev pub dict_of_field : String → Option Json → Result Fields
dict_of_field error (some (obj fields)) = ok fields
dict_of_field error _ = ledger_error error

abbrev pub number_of : Option ℕ → Result ℕ
number_of (some n) = ok n
number_of none = ledger_error "conversation ledger sequence is invalid"

-- `int(value) != LOG_SCHEMA_VERSION`
unfoldable pub check_schema : Library → Fields → Result (Unit {0})
check_schema lib row = to_int lib (get_default "schema_version" (int (pos 0)) row) >>= λ version.
    elim version [
      | pos n ↦ fail_if (not (eqb n log_schema_version)) "unsupported conversation ledger schema"
      | negsuc n ↦ ledger_error "unsupported conversation ledger schema"
    ]

-- The schema and the name of the log.
unfoldable pub check_binding : Library → Fields → String → Result (Unit {0})
unfolding check_schema
check_binding lib row log_name =
    check_schema lib row
    >> fail_if (not (equals_str log_name (get_default "log_name" null row)))
        "conversation ledger name binding mismatch"

-- The shape of the row and its digest.
unfoldable pub check_mark : Library → String → Fields → String → Result (Unit {0})
check_mark lib key row log_name = do
  previous ← str_of_field "conversation ledger envelope is invalid" (get "previous_hmac" row)
  payload ← dict_of_field "conversation ledger envelope is invalid" (get "payload" row)
  recorded ← str_of_field "conversation ledger HMAC is invalid" (get "hmac_sha256" row)
  fail_if (not (eqb (count recorded) 64)) "conversation ledger HMAC is invalid"
  fail_if
      (not (
        recorded
        == mark lib key
            (authenticated log_name (get_default "sequence" null row) previous payload)))
      "conversation ledger authentication failed"

-- `_verify_envelope`: the sequence number of the row, when it does not raise.
unfoldable pub verify_envelope : Library → String → Fields → String → Option ℕ → Result ℕ
unfolding check_binding check_mark
verify_envelope lib key row log_name expected = do
  check_binding lib row log_name
  sequence ← number_of (sequence_of (get "sequence" row))
  fail_if (not (is_expected expected sequence)) "conversation ledger sequence is not contiguous"
  check_mark lib key row log_name
  ok sequence

-- The object on a line.
abbrev pub object_of : Option Json → Result Fields
object_of none = ledger_error "conversation memory log contains invalid JSON"
object_of (some (obj row)) = ok row
object_of (some _) = ledger_error "conversation memory log rows must be objects"

-- The rows of a file, which must be objects.
unfoldable pub objects : List (Option Json) → Result (List Fields)
objects [] = ok []
objects (line ∷ rest) = do row ← object_of line; rows ← objects rest; ok (row ∷ rows)

-- `_read_raw_rows`
unfoldable pub read_raw_rows : Disk → Option Log → Result (List Fields)
unfolding objects
read_raw_rows disk none = ok []
read_raw_rows disk (some log) =
    fail_if (ltb max_state_file_bytes (disk.size log))
      "conversation memory log exceeds the state size limit"
    >> objects log.lines

unfoldable pub last_line : List (Option Json) → Option (Option Json)
last_line [] = none
last_line (line ∷ rest) = elim (last_line rest) [ none ↦ some line | some later ↦ some later ]

-- `_read_last_raw_row`
unfoldable pub read_last_raw_row : Disk → Option Log → Result (Option Fields)
unfolding last_line
read_last_raw_row disk none = ok none
read_last_raw_row disk (some log) = do
  fail_if (ltb max_state_file_bytes (disk.size log))
      "conversation memory log exceeds the state size limit"
  elim (last_line log.lines) [
    | none ↦ ok none
    | some line ↦ object_of line >>= λ row. ok (some row)
  ]

-- One round of `read`, at a sequence number and the digest before it: the payload. The text of the
-- mismatch is without the file's name and the number.
unfoldable pub read_row : Library → String → String → ℕ → String → Fields → Result Fields
unfolding verify_envelope
read_row lib key log_name sequence previous row = do
  verified ← verify_envelope lib key row log_name (some sequence)
  fail_if (not (text_of lib (get "previous_hmac" row) == previous))
      "conversation ledger chain mismatch"
  dict_of_field "conversation ledger payload is invalid" (get "payload" row)

unfoldable pub read_rows :
    Library → String → String → ℕ → String → List Fields → Result (List Fields)
unfolding read_row
read_rows lib key log_name sequence previous [] = ok []
read_rows lib key log_name sequence previous (row ∷ rest) = do
  payload ← read_row lib key log_name sequence previous row
  payloads ← read_rows lib key log_name (suc sequence) (text_of lib (get "hmac_sha256" row)) rest
  ok (payload ∷ payloads)

unfoldable pub read : Library → Disk → String → String → Option Log → Result (List Fields)
unfolding read_raw_rows read_rows
read lib disk key log_name file = do
  rows ← read_raw_rows disk file
  read_rows lib key log_name 0 "" rows

unfoldable pub last_payload : Library → Disk → String → String → Option Log → Result (Option Fields)
unfolding read_last_raw_row verify_envelope
last_payload lib disk key log_name file = do
  last ← read_last_raw_row disk file
  elim last [
    | none ↦ ok none
    | some row ↦ (do
      verified ← verify_envelope lib key row log_name none
      payload ← dict_of_field "conversation ledger payload is invalid" (get "payload" row)
      ok (some payload))
  ]

-- A file that is opened to append to it, which creates it.
abbrev pub log_of : Option Log → Log
log_of none = record { lines = []; is_ended = true }
log_of (some log) = log

-- A row behind a line without a newline is on that line, which is no JSON then: an append comes only
-- behind an object.
unfoldable pub joined : Fields → List (Option Json) → List (Option Json)
joined row [] = some (obj row) ∷ []
joined row (line ∷ []) = none ∷ []
joined row (line ∷ next ∷ rest) = line ∷ joined row (next ∷ rest)

-- The file with the row and a newline written at its end.
unfoldable pub with_row : Log → Fields → Log
unfolding joined
with_row log row = record {
  lines = if log.is_ended then log.lines ++ (some (obj row) ∷ []) else joined row log.lines;
  is_ended = true;
}

-- `_append_raw_row`
unfoldable pub append_raw_row : Disk → Option Log → Fields → Result Log
unfolding with_row
append_raw_row disk file row =
    fail_if (ltb max_state_file_bytes (disk.size (log_of file) + disk.row_size row))
      "conversation memory log exceeds the state size limit"
    >> ok (with_row (log_of file) row)

-- The sequence number and the digest that follow the last row.
unfoldable pub next_link : Library → String → String → Option Fields → Result (ℕ × String)
next_link lib key log_name none = ok (0, "")
next_link lib key log_name (some last) = do
  sequence ← verify_envelope lib key last log_name none
  ok (suc sequence, text_of lib (get "hmac_sha256" last))

-- `append_unlocked`: the file afterwards.
unfoldable pub append_unlocked : Library → Disk → String → String → Option Log → Fields → Result Log
unfolding append_raw_row next_link read_last_raw_row
append_unlocked lib disk key log_name file payload = do
  fail_if (is_empty key) "conversation authentication key is missing"
  last ← read_last_raw_row disk file
  link ← next_link lib key log_name last
  append_raw_row disk file (envelope lib key log_name link.0 link.1 payload)

-- The envelopes of `migrate_legacy`.
unfoldable pub chain_rows : Library → String → String → ℕ → String → List Fields → List Fields
chain_rows lib key log_name sequence previous [] = []
chain_rows lib key log_name sequence previous (payload ∷ rest) =
    let row : Fields = envelope lib key log_name sequence previous payload in
    row ∷ chain_rows lib key log_name (suc sequence) (text_of lib (get "hmac_sha256" row)) rest

unfoldable pub validate_all : (Fields → Result (Unit {0})) → List Fields → Result (Unit {0})
validate_all validator [] = ok tt
validate_all validator (row ∷ rest) = validator row >> validate_all validator rest

abbrev pub to_log : List Fields → Log
to_log rows = record { lines = map (λ row. some (obj row)) rows; is_ended = true }

-- Whether the first row has the schema version of the chained files.
abbrev pub is_migrated : Library → Fields → Bool
is_migrated lib row =
    json_eq lib (get_default "schema_version" null row) (int (pos log_schema_version))

-- `migrate_legacy`: the file afterwards, and whether it was migrated.
unfoldable pub migrate_legacy :
    Library
    → Disk
    → String
    → String
    → (Fields → Result (Unit {0}))
    → Option Log
    → Result (Option Log × Bool)
unfolding chain_rows validate_all
migrate_legacy lib disk key log_name validator file = do
  rows ← read_raw_rows disk file
  elim rows [
    | [] ↦ ok (file, false)
    | first ∷ rest ↦
        if is_migrated lib first
        then read lib disk key log_name file >>= (λ _. ok (file, false))
        else (do
          validate_all validator (first ∷ rest)
          let log : Log = to_log (chain_rows lib key log_name 0 "" (first ∷ rest))
          fail_if (ltb max_state_file_bytes (disk.size log))
              "state file exceeds the 268435456-byte safety limit"
          ok (some log, true))
  ]
