-- ===== src/Receipt.antt =====
-- src/mini_code_agent/receipt.py: the authenticated receipt of a prepared transaction. A receipt is
-- a JSON object; a file that cannot be read is `none`; the key is a text of 32 characters, one for
-- each byte.
pub mod RoundTrip
pub mod Binding
use Prim.Native.String.{count}
use mini_code_agent_langgrap.Prelude.{
  ℕ, zero, suc, Bool, true, false, not, ◌&&◌, ◌||◌, List, [], ◌∷◌, ◌++◌, Option, none, some, String,
  ℤ, pos, negsuc, Result, ok, err, ◌==◌, eqb, is_empty, concat, join, if◌then◌else◌,
}
use mini_code_agent_langgrap.Prelude.Results.{◌>>=◌, ◌>>◌, raise, raise_if}
use mini_code_agent_langgrap.Prelude.Json.{
  Json, null, bool, int, float, str, arr, obj, Items, nil, cons, Fields, end, field, get,
  get_default, get_in, truthy, equals_zero, equals_str, equals_bool, equals_strs, strs,
}
use mini_code_agent_langgrap.Prelude.JsonEquality.{json_eq}
use mini_code_agent_langgrap.Prelude.Library.{Library}
use mini_code_agent_langgrap.Manifest.{Manifest, log_json}

abbrev pub receipt_version : ℤ
receipt_version = pos 1

abbrev pub receipt_kind : String
receipt_kind = "mini-code-agent/transaction-receipt"

abbrev receipt_error : {A : Type 0} → String → Result A
receipt_error text = raise "ReceiptError" text

unfoldable pub digest_json : Library → Json → String
digest_json lib value = lib.sha256_hex (lib.canonical_json value)

abbrev get_or : Option String → String → String
get_or none d = d
get_or (some s) d = s

-- `manifest.get(key) or default`
abbrev or_text : Option String → String → String
or_text none d = d
or_text (some s) d = if is_empty s then d else s

unfoldable pub workspace_identity : Library → Manifest → String
workspace_identity lib m =
    or_text m.workspace_identity_sha256 (lib.sha256_hex (lib.resolve m.source))

-- A passing `run_tests` event.
unfoldable pub is_passing_event : Json → Bool
is_passing_event (obj event) =
    equals_str "tool" (get_default "type" null event)
    && (equals_str "run_tests" (get_default "tool" null event)
        && equals_zero (get_default "returncode" null event))
is_passing_event _ = false

-- `successful[-1]`
unfoldable pub last_passing : Items → Option Fields
unfolding is_passing_event
last_passing nil = none
last_passing (cons v rest) = elim (last_passing rest) [
  | some event ↦ some event
  | none ↦ if is_passing_event v then elim v [ obj event ↦ some event | _ ↦ none ] else none
]

-- The events that the loop visits: of a text or a dict it visits texts, which are no events.
unfoldable pub events_of : Option Json → Result Items
events_of none = ok nil
events_of (some (arr events)) = ok events
events_of (some (str _)) = ok nil
events_of (some (obj _)) = ok nil
events_of (some _) = raise "TypeError" "object is not iterable"

-- `int(value)`
unfoldable pub to_int : Library → Json → Result ℤ
to_int lib (int n) = ok n
to_int lib (bool true) = ok (pos 1)
to_int lib (bool false) = ok (pos 0)
to_int lib (float t) = lib.int_of t
to_int lib (str t) = lib.int_of t
to_int lib _ = raise "TypeError" "int() argument must be a string or a number"

unfoldable pub tests_run_field : Library → Json → Result Fields
unfolding to_int
tests_run_field lib null = ok end
tests_run_field lib value = do n ← to_int lib value; ok (field "tests_run" (int n) end)

unfoldable pub legacy_check : Library → Fields → Result Items
unfolding to_int tests_run_field
legacy_check lib event = do
  duration ← to_int lib (get_default "duration_ms" (int (pos 0)) event)
  tests_run ← tests_run_field lib (get_default "tests_run" null event)
  ok (
      cons
        (obj (
          field "name" (str "tests") (
            field "returncode" (int (pos 0)) (
              field "duration_ms" (int duration) (
                field "blocked" (bool (truthy (get_default "blocked" (bool false) event))) (
                  field "approved" (bool (truthy (get_default "approved" (bool true) event)))
                    tests_run))))))
        nil)

abbrev check_keys : List String
check_keys =
    "name" ∷ "returncode" ∷ "duration_ms" ∷ "tests_run" ∷ "exception_info" ∷ "blocked" ∷ "approved"
    ∷ "command_sha256" ∷ []

-- The dict of those keys that the check has.
unfoldable pub select_keys : List String → Fields → Fields
select_keys [] raw = end
select_keys (k ∷ ks) raw = elim (get k raw) [
  | none ↦ select_keys ks raw
  | some v ↦ field k v (select_keys ks raw)
]

abbrev is_str : Option Json → Bool
is_str (some (str _)) = true
is_str _ = false

unfoldable pub select_check : Json → Result Json
unfolding select_keys
select_check (obj raw) =
    if is_str (get "name" raw)
    then ok (obj (select_keys check_keys raw))
    else receipt_error "verification check evidence is malformed"
select_check _ = receipt_error "verification check evidence is malformed"

unfoldable pub select_checks : Items → Result Items
unfolding select_check
select_checks nil = ok nil
select_checks (cons v rest) = do c ← select_check v; cs ← select_checks rest; ok (cons c cs)

unfoldable pub checks_of_event : Library → Fields → Result Items
unfolding legacy_check select_checks
checks_of_event lib event = elim (get "verification_checks" event) [
  | some (arr (cons v rest)) ↦ select_checks (cons v rest)
  | _ ↦ legacy_check lib event
]

abbrev checks_of : Library → Option Fields → Result Items
checks_of lib none = receipt_error "passing verification evidence is missing"
checks_of lib (some event) = checks_of_event lib event

unfoldable pub verification_checks : Library → Fields → Result Items
unfolding events_of last_passing checks_of_event
verification_checks lib trajectory = do
  events ← events_of (get "events" trajectory)
  checks_of lib (last_passing events)

unfoldable pub receipt_payload : Library → Manifest → Fields → Items → ℕ → Fields
unfolding digest_json workspace_identity
receipt_payload lib m trajectory checks issued_at_ns = field "version" (int receipt_version) (
    field "kind" (str receipt_kind) (
      field "transaction_id" (str m.id) (
        field "issued_at_ns" (int (pos issued_at_ns)) (
          field "state" (str "prepared") (
            field "workspace" (obj (field "identity_sha256" (str (workspace_identity lib m)) end)) (
              field "memory" (obj (field "mode" (str (get_or m.memory_mode "off")) end)) (
                field "baseline"
                  (obj (
                    field "commit" (str m.baseline_commit)
                      (field "workspace_fingerprint" (str m.baseline_fingerprint) end)))
                  (field "prepared"
                    (obj (
                      field "workspace_fingerprint" (str m.prepared_fingerprint) (
                        field "projected_source_fingerprint" (str m.prepared_source_fingerprint)
                          (field "patch_sha256" (str m.prepared_patch_sha256) end))))
                    (field "verification"
                      (obj (
                        field "status" (get_default "verification_status" (str "") trajectory) (
                          field "fingerprint"
                            (get_default "verified_fingerprint" (str "") trajectory)
                            (field "checks" (arr checks) end))))
                      (field "provenance"
                        (obj (
                          field "trajectory_sha256" (str (digest_json lib (obj trajectory))) (
                            field "access_log_sha256"
                              (str (digest_json lib (arr (log_json m.access_log))))
                              (field "read_set" (arr (strs m.read_set)) (
                                field "write_set" (arr (strs m.write_set)) (
                                  field "broad_read" (bool m.broad_read)
                                    (field "broad_write" (bool m.broad_write) end)))))))
                        end))))))))))

-- The envelope, before it is written to receipt.json.
unfoldable pub seal : Library → String → Fields → Fields
unfolding digest_json
seal lib key payload = field "receipt_id" (str (digest_json lib (obj payload))) (
    field "payload" (obj payload)
      (field "hmac_sha256" (str (lib.hmac_hex key (lib.canonical_json (obj payload)))) end))

-- `_load_existing_key`, where no other process is creating the key.
unfoldable pub load_existing_key : Option String → Result String
load_existing_key none = receipt_error "could not open transaction receipt key"
load_existing_key (some key) =
    if eqb (count key) 32 then ok key else receipt_error "transaction receipt key is invalid"

-- `_load_or_create_key`: the key, and the key file afterwards.
unfoldable pub load_or_create_key : Option String → String → Result String × Option String
unfolding load_existing_key
load_or_create_key none fresh = (ok fresh, some fresh)
load_or_create_key (some key) fresh = (load_existing_key (some key), some key)

abbrev pub isolate_payload : Option Json → Result Fields
isolate_payload (some (obj payload)) = ok payload
isolate_payload _ = receipt_error "transaction receipt is malformed"

abbrev pub parsed_envelope : Option Json → Result Fields
parsed_envelope none = receipt_error "could not open transaction receipt"
parsed_envelope (some (obj envelope)) = ok envelope
parsed_envelope (some _) = receipt_error "transaction receipt is malformed"

-- `str(envelope.get(key, ""))`
abbrev pub text_of : Library → Option Json → String
text_of lib none = ""
text_of lib (some (str s)) = s
text_of lib (some v) = lib.str_of v

unfoldable pub is_identified : Library → String → Fields → Bool
is_identified lib transaction_id payload =
    json_eq lib (int receipt_version) (get_default "version" null payload)
    && (equals_str receipt_kind (get_default "kind" null payload)
        && (equals_str transaction_id (get_default "transaction_id" null payload)
            && equals_str "prepared" (get_default "state" null payload)))

unfoldable pub load_receipt : Library → Option Json → Option String → String → Result Fields
load_receipt lib file key_file transaction_id = do
  envelope ← parsed_envelope file
  payload ← isolate_payload (get "payload" envelope)
  raise_if (not (is_identified lib transaction_id payload)) "ReceiptError"
      "transaction receipt identity is invalid"
  raise_if (not (text_of lib (get "receipt_id" envelope) == digest_json lib (obj payload)))
      "ReceiptError" "transaction receipt digest is invalid"
  key ← load_existing_key key_file
  raise_if
      (not (
        text_of lib (get "hmac_sha256" envelope)
        == lib.hmac_hex key (lib.canonical_json (obj payload))))
      "ReceiptError" "transaction receipt authentication failed"
  ok envelope

-- `payload.get(section, {})` and a key of it
abbrev entry : String → String → Fields → Json
entry section key payload = elim (get_in key (get_default section (obj end) payload)) [
  | none ↦ null
  | some v ↦ v
]

abbrev is_dict : Option Json → Bool
is_dict (some (obj _)) = true
is_dict _ = false

-- A section that is there has a method `get`.
abbrev is_section : String → Fields → Bool
is_section section payload = is_dict (some (get_default section (obj end) payload))

unfoldable pub has_sections : Fields → Bool
has_sections payload =
    is_section "baseline" payload
    && (is_section "prepared" payload
        && (is_section "verification" payload && is_section "provenance" payload))

abbrev when : Bool → List (String × Bool) → List (String × Bool)
when true checks = checks
when false checks = []

-- The keys that `expected` and `actual` hold, each with the test of its two values.
unfoldable pub receipt_tests : Library → Fields → Manifest → Fields → List (String × Bool)
unfolding digest_json workspace_identity
receipt_tests lib payload m trajectory =
    (("transaction_id", equals_str m.id (get_default "transaction_id" null payload))
      ∷ ("baseline_commit", equals_str m.baseline_commit (entry "baseline" "commit" payload))
      ∷ (
        "baseline_fingerprint",
        equals_str m.baseline_fingerprint (entry "baseline" "workspace_fingerprint" payload),
      )
      ∷ (
        "prepared_fingerprint",
        equals_str m.prepared_fingerprint (entry "prepared" "workspace_fingerprint" payload),
      )
      ∷ (
        "prepared_source_fingerprint",
        equals_str m.prepared_source_fingerprint
            (entry "prepared" "projected_source_fingerprint" payload),
      )
      ∷ (
        "prepared_patch_sha256",
        equals_str m.prepared_patch_sha256 (entry "prepared" "patch_sha256" payload),
      )
      ∷ (
        "verification_status",
        json_eq lib (get_default "verification_status" (str "") trajectory)
            (entry "verification" "status" payload),
      )
      ∷ (
        "verification_fingerprint",
        json_eq lib (get_default "verified_fingerprint" (str "") trajectory)
            (entry "verification" "fingerprint" payload),
      )
      ∷ (
        "trajectory_sha256",
        equals_str (digest_json lib (obj trajectory))
            (entry "provenance" "trajectory_sha256" payload),
      )
      ∷ (
        "access_log_sha256",
        equals_str (digest_json lib (arr (log_json m.access_log)))
            (entry "provenance" "access_log_sha256" payload),
      )
      ∷ ("read_set", equals_strs m.read_set (entry "provenance" "read_set" payload))
      ∷ ("write_set", equals_strs m.write_set (entry "provenance" "write_set" payload))
      ∷ ("broad_read", equals_bool m.broad_read (entry "provenance" "broad_read" payload))
      ∷ ("broad_write", equals_bool m.broad_write (entry "provenance" "broad_write" payload))
      ∷ [])
    ++ (when (is_dict (get "workspace" payload)) (
          (
            "workspace_identity_sha256",
            equals_str (workspace_identity lib m) (entry "workspace" "identity_sha256" payload),
          )
          ∷ [])
        ++ when (is_dict (get "memory" payload)) (
            ("memory_mode", equals_str (get_or m.memory_mode "off") (entry "memory" "mode" payload))
            ∷ []))

unfoldable pub mismatches : List (String × Bool) → List String
mismatches [] = []
mismatches ((key, same) ∷ rest) = let more = mismatches rest in if same then more else key ∷ more

abbrev pub verdict : List String → Result (Unit {0})
verdict [] = ok tt
verdict (k ∷ ks) =
    receipt_error
      (concat ("transaction receipt does not match durable state: " ∷ join ", " (k ∷ ks) ∷ []))

unfoldable pub validate_receipt : Library → Fields → Manifest → Fields → Result (Unit {0})
validate_receipt lib payload m trajectory = do
  raise_if (not (has_sections payload)) "AttributeError" "object has no attribute 'get'"
  verdict (mismatches (receipt_tests lib payload m trajectory))

-- `receipt["payload"]` of a receipt that was loaded
abbrev pub payload_of : Fields → Fields
payload_of envelope = elim (get "payload" envelope) [ some (obj payload) ↦ payload | _ ↦ end ]
