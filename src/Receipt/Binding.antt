-- ===== src/Receipt/Binding.antt =====
-- What a receipt pins down: one payload is valid for one durable state only, and a loaded receipt
-- is authentic.
use Prim.Native.String.{count}
use mini_code_agent_langgrap.Prelude.{
  ◌≡◌, refl, subst, ap, ◌∙◌, Bool, true, false, not, ◌||◌, List, [], ◌∷◌, Option, none, some,
  String, pos, negsuc, zero, suc, ok, ◌==◌, eq_iff, All, arith,
}
use mini_code_agent_langgrap.Prelude.Results.{raise_if, >>=-eq-ok, raise_if-eq-ok}
use mini_code_agent_langgrap.Prelude.Json.{
  Json, null, bool, int, float, str, arr, obj, Items, nil, cons, Fields, get, get_default,
  equals_str, equals_bool, equals_items, equals_strs,
}
use mini_code_agent_langgrap.Prelude.Library.{Library}
use mini_code_agent_langgrap.Manifest.{Manifest, log_json}
use mini_code_agent_langgrap.Receipt.{
  digest_json, is_identified, has_sections, load_existing_key, load_receipt, parsed_envelope,
  isolate_payload, text_of, receipt_tests, mismatches, verdict, validate_receipt,
}

-- What a value is that equals a text, or a list of texts.
equals_str-eq : (t : String) (v : Json) → equals_str t v ≡ true → v ≡ str t
equals_str-eq t (str s) h = ap str ((eq_iff s t).0 h)
equals_str-eq t null h = cc
equals_str-eq t _ h = cc

same_text : (a b : String) (v : Json) → equals_str a v ≡ true → equals_str b v ≡ true → a ≡ b
same_text a b v h k = cc (equals_str-eq a v h, equals_str-eq b v k)

same_items :
    (us ts : List String) (vs : Items)
    → equals_items us vs ≡ true
    → equals_items ts vs ≡ true
    → us ≡ ts
same_items [] [] vs h k = refl
same_items [] (t ∷ ts) nil h k = cc
same_items [] (t ∷ ts) (cons v vs) h k = cc
same_items (u ∷ us) [] nil h k = cc
same_items (u ∷ us) [] (cons v vs) h k = cc
same_items (u ∷ us) (t ∷ ts) nil h k = cc
same_items (u ∷ us) (t ∷ ts) (cons v vs) h k = cc (
  same_text u t v (ground (arith, equals_str u v)) (ground (arith, equals_str t v)),
  same_items us ts vs (ground (arith, equals_str u v)) (ground (arith, equals_str t v)),
)

same_texts :
    (a b : List String) (v : Json) → equals_strs a v ≡ true → equals_strs b v ≡ true → a ≡ b
same_texts a b (arr vs) h k = same_items a b vs h k
same_texts a b null h k = cc
same_texts a b _ h k = cc

not-both : (v : Json) → equals_bool true v ≡ true → equals_bool false v ≡ true → ⊥
not-both null h k = cc
not-both (bool true) h k = cc
not-both (bool false) h k = cc
not-both (int (pos zero)) h k = cc
not-both (int (pos (suc n))) h k = cc
not-both (int (negsuc n)) h k = cc
not-both (float t) h k =
    cc (subst (λ x. (x == "0.0" || x == "-0.0") ≡ true) ((eq_iff t "1.0").0 h) k)
not-both _ h k = cc

same_flag : (a b : Bool) (v : Json) → equals_bool a v ≡ true → equals_bool b v ≡ true → a ≡ b
same_flag true true v h k = refl
same_flag false false v h k = refl
same_flag true false v h k = absurd (not-both v h k)
same_flag false true v h k = absurd (not-both v k h)

mismatches-nil :
    (tests : List (String × Bool))
    → mismatches tests ≡ []
    → All (λ (t : String × Bool). t.1 ≡ true) tests
unfolding mismatches
mismatches-nil [] h = tt
mismatches-nil ((key, true) ∷ rest) h = (refl, mismatches-nil rest h)
mismatches-nil ((key, false) ∷ rest) h = cc

verdict-ok : (keys : List String) → verdict keys ≡ ok tt → keys ≡ []
verdict-ok [] h = refl
verdict-ok (k ∷ ks) h = cc

validate_receipt-tests :
    (lib : Library) (payload : Fields) (m : Manifest) (trajectory : Fields)
    → validate_receipt lib payload m trajectory ≡ ok tt
    → All (λ (t : String × Bool). t.1 ≡ true) (receipt_tests lib payload m trajectory)
unfolding validate_receipt
validate_receipt-tests lib payload m trajectory h =
    let (_, _, v) =
      >>=-eq-ok
        (raise_if (not (has_sections payload)) "AttributeError" "object has no attribute 'get'")
        (λ _. verdict (mismatches (receipt_tests lib payload m trajectory))) h in
    mismatches-nil (receipt_tests lib payload m trajectory)
      (verdict-ok (mismatches (receipt_tests lib payload m trajectory)) v)

-- The parts of the durable state that a receipt pins down.
pub record SameState (lib : Library) (m m' : Manifest) (trajectory trajectory' : Fields)
    : Type 0 where
  pub id : m.id ≡ m'.id
  pub baseline_commit : m.baseline_commit ≡ m'.baseline_commit
  pub baseline_fingerprint : m.baseline_fingerprint ≡ m'.baseline_fingerprint
  pub prepared_fingerprint : m.prepared_fingerprint ≡ m'.prepared_fingerprint
  pub prepared_source_fingerprint : m.prepared_source_fingerprint ≡ m'.prepared_source_fingerprint
  pub prepared_patch_sha256 : m.prepared_patch_sha256 ≡ m'.prepared_patch_sha256
  pub trajectory_sha256 : digest_json lib (obj trajectory) ≡ digest_json lib (obj trajectory')
  pub access_log_sha256 :
      digest_json lib (arr (log_json m.access_log)) ≡ digest_json lib (arr (log_json m'.access_log))
  pub read_set : m.read_set ≡ m'.read_set
  pub write_set : m.write_set ≡ m'.write_set
  pub broad_read : m.broad_read ≡ m'.broad_read
  pub broad_write : m.broad_write ≡ m'.broad_write

-- One receipt payload is valid for one durable state: two states for which it is valid agree in
-- their id, baseline, prepared fingerprints, patch digest and access sets, and in the digests of
-- their trajectories and access logs.
pub validate_receipt-SameState :
    (lib : Library) (payload : Fields) (m m' : Manifest) (trajectory trajectory' : Fields)
    → validate_receipt lib payload m trajectory ≡ ok tt
    → validate_receipt lib payload m' trajectory' ≡ ok tt
    → SameState lib m m' trajectory trajectory'
unfolding receipt_tests
validate_receipt-SameState lib payload m m' trajectory trajectory' h h' =
    let t = validate_receipt-tests lib payload m trajectory h in
    let t' = validate_receipt-tests lib payload m' trajectory' h' in
    record {
      id = same_text _ _ _ t.0 t'.0;
      baseline_commit = same_text _ _ _ t.1.0 t'.1.0;
      baseline_fingerprint = same_text _ _ _ t.1.1.0 t'.1.1.0;
      prepared_fingerprint = same_text _ _ _ t.1.1.1.0 t'.1.1.1.0;
      prepared_source_fingerprint = same_text _ _ _ t.1.1.1.1.0 t'.1.1.1.1.0;
      prepared_patch_sha256 = same_text _ _ _ t.1.1.1.1.1.0 t'.1.1.1.1.1.0;
      trajectory_sha256 = same_text _ _ _ t.1.1.1.1.1.1.1.1.0 t'.1.1.1.1.1.1.1.1.0;
      access_log_sha256 = same_text _ _ _ t.1.1.1.1.1.1.1.1.1.0 t'.1.1.1.1.1.1.1.1.1.0;
      read_set = same_texts _ _ _ t.1.1.1.1.1.1.1.1.1.1.0 t'.1.1.1.1.1.1.1.1.1.1.0;
      write_set = same_texts _ _ _ t.1.1.1.1.1.1.1.1.1.1.1.0 t'.1.1.1.1.1.1.1.1.1.1.1.0;
      broad_read = same_flag _ _ _ t.1.1.1.1.1.1.1.1.1.1.1.1.0 t'.1.1.1.1.1.1.1.1.1.1.1.1.0;
      broad_write = same_flag _ _ _ t.1.1.1.1.1.1.1.1.1.1.1.1.1.0 t'.1.1.1.1.1.1.1.1.1.1.1.1.1.0;
    }

-- What authenticates an envelope: its payload is an object issued in state `prepared` for the
-- transaction, its receipt id is the payload's digest, and its mark is the payload's keyed digest.
pub record IsAuthentic (lib : Library) (envelope : Fields) (key transaction_id : String)
    : Type 0 where
  pub payload : Fields
  pub is_payload : get "payload" envelope ≡ some (obj payload)
  pub transaction : get_default "transaction_id" null payload ≡ str transaction_id
  pub state : get_default "state" null payload ≡ str "prepared"
  pub receipt_id : text_of lib (get "receipt_id" envelope) ≡ digest_json lib (obj payload)
  pub mark :
      text_of lib (get "hmac_sha256" envelope) ≡ lib.hmac_hex key (lib.canonical_json (obj payload))
  pub key_size : count key ≡ 32

parsed_envelope-ok :
    (file : Option Json) {envelope : Fields}
    → parsed_envelope file ≡ ok envelope
    → file ≡ some (obj envelope)
parsed_envelope-ok none h = cc
parsed_envelope-ok (some (obj e)) h = cc
parsed_envelope-ok (some null) h = cc
parsed_envelope-ok (some _) h = cc

isolate_payload-ok :
    (o : Option Json) {payload : Fields} → isolate_payload o ≡ ok payload → o ≡ some (obj payload)
isolate_payload-ok none h = cc
isolate_payload-ok (some (obj e)) h = cc
isolate_payload-ok (some null) h = cc
isolate_payload-ok (some _) h = cc

load_existing_key-ok :
    (file : Option String) {key : String}
    → load_existing_key file ≡ ok key
    → (file ≡ some key) × (count key ≡ 32)
unfolding load_existing_key
load_existing_key-ok none h = cc
load_existing_key-ok (some k) h = ground arith

not-not : {b : Bool} → not b ≡ false → b ≡ true
not-not {b} h = ground arith

is_identified-fields :
    (lib : Library) (transaction_id : String) (payload : Fields)
    → is_identified lib transaction_id payload ≡ true
    → (get_default "transaction_id" null payload ≡ str transaction_id)
      × (get_default "state" null payload ≡ str "prepared")
unfolding is_identified
is_identified-fields lib transaction_id payload h = (
  equals_str-eq transaction_id (get_default "transaction_id" null payload) (ground arith),
  equals_str-eq "prepared" (get_default "state" null payload) (ground arith),
)

-- A receipt that loads is the file's object, and it is authentic under the key file's key.
pub load_receipt-IsAuthentic :
    (lib : Library) (file : Option Json) (key_file : Option String) (transaction_id : String)
    {envelope : Fields}
    → load_receipt lib file key_file transaction_id ≡ ok envelope
    → (file ≡ some (obj envelope))
      × (key : String) × (key_file ≡ some key)
      × IsAuthentic lib envelope key transaction_id
unfolding load_receipt
load_receipt-IsAuthentic lib file key_file transaction_id {envelope} h =
    let (e, p1, h1) = >>=-eq-ok (parsed_envelope file) _ h in
    let (payload, p2, h2) = >>=-eq-ok (isolate_payload (get "payload" e)) _ h1 in
    let (_, p3, h3) =
      >>=-eq-ok
        (raise_if (not (is_identified lib transaction_id payload)) "ReceiptError"
          "transaction receipt identity is invalid")
        _ h2 in
    let (_, p4, h4) =
      >>=-eq-ok
        (raise_if (not (text_of lib (get "receipt_id" e) == digest_json lib (obj payload)))
          "ReceiptError" "transaction receipt digest is invalid")
        _ h3 in
    let (key, p5, h5) = >>=-eq-ok (load_existing_key key_file) _ h4 in
    let (_, p6, h6) =
      >>=-eq-ok
        (raise_if
          (not (
            text_of lib (get "hmac_sha256" e)
            == lib.hmac_hex key (lib.canonical_json (obj payload))))
          "ReceiptError" "transaction receipt authentication failed")
        _ h5 in
    let same : e ≡ envelope = cc in
    let (is_key, size) = load_existing_key-ok key_file p5 in
    let (named, ready) =
      is_identified-fields lib transaction_id payload (not-not (raise_if-eq-ok _ _ _ p3)) in
    (
      parsed_envelope-ok file p1 ∙ ap (λ x. some (obj x)) same,
      key,
      is_key,
      subst (λ x. IsAuthentic lib x key transaction_id) same
          (record {
            payload = payload;
            is_payload = isolate_payload-ok (get "payload" e) p2;
            transaction = named;
            state = ready;
            receipt_id = (eq_iff _ _).0 (not-not (raise_if-eq-ok _ _ _ p4));
            mark = (eq_iff _ _).0 (not-not (raise_if-eq-ok _ _ _ p6));
            key_size = size;
          }),
    )
