-- ===== src/Tests/Conversation.antt =====
-- A conversation log of one row, appended to, and an old log that is migrated.
use mini_code_agent_langgrap.Prelude.{
  ◌≡◌, refl, ℕ, ◌+◌, List, [], ◌∷◌, ◌++◌, Option, none, some, String, ok, true, arith,
}
use Prim.Native.String.{count}
use mini_code_agent_langgrap.Receipt.{to_int}
use mini_code_agent_langgrap.Prelude.Json.{Json, str, obj, Fields, field, end}
use mini_code_agent_langgrap.Prelude.JsonEquality.{json_eq}
use mini_code_agent_langgrap.Prelude.Library.{Library}
use mini_code_agent_langgrap.Tests.Transaction.{library}
use mini_code_agent_langgrap.Conversation.Ledger.{
  Log, Disk, validate_all, objects, read_raw_rows, read_rows, read, append_unlocked, migrate_legacy,
  chain_rows, envelope, with_row, read_row, verify_envelope, check_binding, check_schema,
  check_mark,
}
use mini_code_agent_langgrap.Conversation.Ledger.Append.{
  following_row, read-append_unlocked, read-migrate_legacy,
}

abbrev digest : String
digest = "0123456789abcdef0123456789abcdef0123456789abcdef0123456789abcdef"

abbrev short_library : Library
short_library = record library { hmac_hex = λ k t. digest }

-- A line of a row has the size of the row's text and a newline.
abbrev line_size : Option Json → ℕ
line_size none = 1
line_size (some v) = count (short_library.canonical_json v) + 1

abbrev lines_size : List (Option Json) → ℕ
lines_size [] = 0
lines_size (line ∷ rest) = line_size line + lines_size rest

abbrev disk : Disk
disk = record { size = λ log. lines_size log.lines; row_size = λ row. line_size (some (obj row)) }

lines_size-snoc :
    (lines : List (Option Json)) (line : Option Json)
    → lines_size (lines ++ (line ∷ [])) ≡ lines_size lines + line_size line
lines_size-snoc [] line = omega arith
lines_size-snoc (first ∷ rest) line = omega (arith, lines_size-snoc rest line)

grows :
    (log : Log) (row : Fields)
    → log.is_ended ≡ true
    → disk.size (with_row log row) ≡ disk.size log + disk.row_size row
unfolding with_row
grows log row ended = rw ended (lines_size-snoc log.lines (some (obj row)))

abbrev payload : Fields
payload = field "role" (str "user") end

abbrev old_log : Log
old_log = record { lines = some (obj payload) ∷ []; is_ended = true }

read-migrate_legacy_example :
    (log : Log) × (migrate_legacy short_library disk "key" "turns" (λ row. ok tt) (some old_log)
      ≡ ok (some log, true))
    × (read short_library disk "key" "turns" (some log) ≡ ok (payload ∷ []))
unfolding json_eq validate_all chain_rows envelope
read-migrate_legacy_example =
    read-migrate_legacy short_library disk "key" "turns" (λ k t. refl) (λ row. ok tt) (some old_log)
      payload [] raw refl refl refl
  where
    raw : read_raw_rows disk (some old_log) ≡ ok (payload ∷ [])
    raw = unfold read_raw_rows in unfold objects in refl

abbrev first_row : Fields
first_row = envelope short_library "key" "turns" 0 "" payload

abbrev log : Log
log = record { lines = some (obj first_row) ∷ []; is_ended = true }

log-rows : read_raw_rows disk (some log) ≡ ok (first_row ∷ [])
unfolding read_raw_rows objects envelope
log-rows = refl

log-reads : read short_library disk "key" "turns" (some log) ≡ ok (payload ∷ [])
unfolding read read_raw_rows objects read_rows read_row verify_envelope check_binding check_schema
    check_mark envelope to_int
log-reads = refl

read-append_unlocked_example :
    (after : Log) × (append_unlocked short_library disk "key" "turns" (some log) payload ≡ ok after)
    × (after.lines
        ≡ some (obj first_row)
          ∷ some (obj (following_row short_library "key" "turns" (first_row ∷ []) payload))
          ∷ [])
    × (after.is_ended ≡ true)
    × (read short_library disk "key" "turns" (some after) ≡ ok (payload ∷ payload ∷ []))
unfolding envelope
read-append_unlocked_example =
    read-append_unlocked short_library disk "key" "turns" (λ k t. refl) grows (some log)
      (first_row ∷ []) (payload ∷ []) payload refl log-rows log-reads refl refl
