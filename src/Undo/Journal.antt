-- ===== src/Undo/Journal.antt =====
-- The records of an undo journal and the signed journal itself.
pub mod RoundTrip
use Prim.Native.Char.{code}
use Prim.Native.String
use Prim.Native.String.{count}
use text.Mathlib.Text.{starts_with}
use mini_code_agent_langgrap.Prelude.{
  ℕ, suc, Bool, true, false, not, ◌&&◌, ◌||◌, List, [], ◌∷◌, Option, none, some, String, ℤ, pos,
  Result, ok, err, ◌==◌, eqb, leb, ltb, length, is_empty, concat, take_chars, if◌then◌else◌,
}
use mini_code_agent_langgrap.Prelude.Texts.{drop_chars}
use mini_code_agent_langgrap.Prelude.Results.{◌>>=◌, ◌>>◌, raise, raise_if}
use mini_code_agent_langgrap.Prelude.Json.{
  Json, null, bool, int, float, str, arr, obj, Items, nil, cons, Fields, end, field, get,
  get_default, equals_str, truthy, items,
}
use mini_code_agent_langgrap.Prelude.JsonEquality.{json_eq}
use mini_code_agent_langgrap.Prelude.Library.{Library}
use mini_code_agent_langgrap.Receipt.{text_of}
use mini_code_agent_langgrap.Undo.{UndoRecord, Site}

abbrev pub value_error : {A : Type 0} → String → Result A
value_error text = raise "ValueError" text

abbrev pub refuse_if : Bool → String → Result (Unit {0})
refuse_if test text = raise_if test "ValueError" text

-- A hexadecimal digit of either case.
abbrev is_hex : ℕ → Bool
is_hex c = (leb b'0' c && leb c b'9') || ((leb b'a' c && leb c b'f') || (leb b'A' c && leb c b'F'))

all_hex : String → Bool
all_hex String.[] = true
all_hex (String.◌∷◌ c s) = is_hex (code c) && all_hex s

unfoldable pub re_full_hash : String → Bool
unfolding all_hex
re_full_hash value = eqb (count value) 64 && all_hex value

-- The digest that binds a relative path to the root.
unfoldable pub path_binding : Library → Site → String → String
path_binding lib site relative = lib.sha256_hex (concat (site.root ∷ "\0" ∷ relative ∷ []))

-- A binding that the record supplies must be the expected one.
abbrev pub is_bound : String → Option Json → Bool
is_bound expected none = true
is_bound expected (some null) = true
is_bound expected (some v) = equals_str expected v

abbrev pub dict_with_path : Json → Result Fields
dict_with_path (obj raw) = elim (get "path" raw) [
  | none ↦ value_error "invalid undo record"
  | some _ ↦ ok raw
]
dict_with_path _ = value_error "invalid undo record"

-- One round of `_validate_records`.
unfoldable pub validate_record : Library → Site → Json → Result UndoRecord
unfolding re_full_hash path_binding
validate_record lib site value = do
  raw ← dict_with_path value
  path ← site.resolve (text_of lib (get "path" raw))
  let existed : Bool = truthy (get_default "existed_before" null raw)
  let before : String = text_of lib (get "before_content" raw)
  let before_hash : String = text_of lib (get "before_hash" raw)
  let after_hash : String = text_of lib (get "after_hash" raw)
  refuse_if (existed && not (before_hash == lib.sha256_hex before))
      (concat ("undo record before hash does not match: " ∷ path ∷ []))
  refuse_if (not (re_full_hash after_hash))
      (concat ("undo record after hash is invalid: " ∷ path ∷ []))
  refuse_if (not (is_bound (path_binding lib site path) (get "path_binding" raw)))
      (concat ("undo record path binding does not match: " ∷ path ∷ []))
  ok (record {
    path = path;
    path_binding = path_binding lib site path;
    existed_before = existed;
    before_content = before;
    before_hash = before_hash;
    after_hash = after_hash;
  })

unfoldable pub validate_each : Library → Site → Items → Result (List UndoRecord)
unfolding validate_record
validate_each lib site nil = ok []
validate_each lib site (cons v rest) = do
  r ← validate_record lib site v
  rs ← validate_each lib site rest
  ok (r ∷ rs)

abbrev pub items_length : Items → ℕ
items_length nil = 0
items_length (cons v rest) = suc (items_length rest)

-- `_validate_records`
unfoldable pub validate_records : Library → Site → Items → Result (List UndoRecord)
unfolding validate_each
validate_records lib site records = do
  refuse_if (ltb 10000 (items_length records)) "too many undo records"
  validate_each lib site records

unfoldable pub record_json : UndoRecord → Json
record_json r = obj (
    field "path" (str r.path) (
      field "path_binding" (str r.path_binding) (
        field "existed_before" (bool r.existed_before) (
          field "before_content" (str r.before_content) (
            field "before_hash" (str r.before_hash) (field "after_hash" (str r.after_hash) end))))))

unfoldable pub records_json : List UndoRecord → Items
unfolding record_json
records_json [] = nil
records_json (r ∷ rs) = cons (record_json r) (records_json rs)

abbrev pub journal_version : ℤ
journal_version = pos 2

unfoldable pub journal_payload : Site → String → ℕ → List UndoRecord → Fields
unfolding records_json
journal_payload site trajectory_path created_at_ns records = field "version" (int journal_version) (
    field "trajectory_path" (str trajectory_path) (
      field "cwd" (str site.root) (
        field "created_at_ns" (int (pos created_at_ns))
          (field "records" (arr (records_json records)) end))))

unfoldable pub journal_envelope : Library → String → Fields → Fields
journal_envelope lib key payload =
    field "payload" (obj payload)
      (field "hmac_sha256" (str (lib.hmac_hex key (lib.canonical_json (obj payload)))) end)

abbrev pub state_reference_prefix : String
state_reference_prefix = "state:"

unfoldable pub journal_name : Library → String → String → String
journal_name lib key trajectory_path =
    concat ("undo-" ∷ take_chars 32 (lib.hmac_hex key trajectory_path) ∷ ".json" ∷ [])

-- `write_undo_journal`, up to the write of the file: its name and its content.
unfoldable pub write_undo_journal :
    Library → Site → String → String → ℕ → Items → Result (String × Fields)
unfolding validate_records journal_payload journal_envelope journal_name
write_undo_journal lib site key trajectory_path created_at_ns records = do
  normalized ← validate_records lib site records
  ok (
    journal_name lib key trajectory_path,
    journal_envelope lib key (journal_payload site trajectory_path created_at_ns normalized),
  )

-- `payload.get("records", [])`, which must be a list: the elements of a text or a dict are no records.
abbrev pub records_of : Option Json → Result Items
records_of none = ok nil
records_of (some (arr records)) = ok records
records_of (some _) = value_error "invalid undo record"

abbrev pub envelope_of : Json → Result Fields
envelope_of (obj envelope) = ok envelope
envelope_of _ = raise "AttributeError" "object has no attribute 'get'"

abbrev pub payload_dict : Option Json → Result Fields
payload_dict (some (obj payload)) = ok payload
payload_dict _ = value_error "invalid undo journal payload"

-- The signed journal that a reference names.
unfoldable pub open_journal : Library → Site → String → String → Json → Result (List UndoRecord)
unfolding validate_records
open_journal lib site key trajectory_source file = do
  envelope ← envelope_of file
  payload ← payload_dict (get "payload" envelope)
  refuse_if
      (not (
        text_of lib (get "hmac_sha256" envelope)
        == lib.hmac_hex key (lib.canonical_json (obj payload))))
      "undo journal integrity check failed"
  refuse_if (not (json_eq lib (get_default "version" null payload) (int journal_version)))
      "unsupported undo journal version"
  refuse_if (not (site.absolute (text_of lib (get "trajectory_path" payload)) == trajectory_source))
      "undo journal trajectory binding does not match"
  refuse_if (not (site.absolute (text_of lib (get "cwd" payload)) == site.root))
      "undo journal workspace does not match trajectory workspace"
  records ← records_of (get "records" payload)
  validate_records lib site records

-- The journal of a reference in the state directory.
unfoldable pub load_signed :
    Library → Site → String → (String → Result Json) → String → String → Result (List UndoRecord)
unfolding open_journal
load_signed lib site key journals trajectory_source reference =
    let name : String = drop_chars 6 reference in
    refuse_if (is_empty name || not (site.base_name name == name)) "invalid undo journal reference"
    >> (journals name >>= open_journal lib site key trajectory_source)

abbrev is_set : Option Json → Bool
is_set none = false
is_set (some v) = truthy v

-- `_load_undo_records` of a trajectory whose journal and source path are given; `legacy` is what is
-- done for an unsigned journal that the caller allows.
unfoldable pub load_undo_records :
    Library
    → Site
    → String
    → (String → Result Json)
    → (String → Result (List UndoRecord))
    → Bool
    → Option Json
    → Option Json
    → Result (Option (List UndoRecord))
unfolding load_signed
load_undo_records lib site key journals legacy allow_legacy_unsafe journal trajectory =
    if not (is_set journal)
    then ok none
    else if not (is_set trajectory)
    then value_error "trajectory source path is required to locate its undo journal"
    else if starts_with (text_of lib journal) state_reference_prefix
    then load_signed lib site key journals (site.absolute (text_of lib trajectory))
        (text_of lib journal)
      >>= (λ records. ok (some records))
    else if not allow_legacy_unsafe
    then value_error "legacy undo journal is unsigned; refusing it without allow_legacy_unsafe=True"
    else legacy (text_of lib journal) >>= (λ records. ok (some records))
