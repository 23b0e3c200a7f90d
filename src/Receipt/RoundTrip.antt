-- ===== src/Receipt/RoundTrip.antt =====
-- A receipt that was issued is loaded and validated against the state that it was issued for.
use Prim.Native.String.{count}
use mini_code_agent_langgrap.Prelude.{
  ℕ, ◌≡◌, refl, Bool, true, false, List, [], ◌∷◌, some, String, ok, eq_refl,
}
use mini_code_agent_langgrap.Prelude.Json.{
  str, bool, obj, Items, Fields, get_default, equals_bool, equals_items, strs,
}
use mini_code_agent_langgrap.Prelude.JsonEquality.{json_eq}
use mini_code_agent_langgrap.Prelude.Library.{Library}
use mini_code_agent_langgrap.Manifest.{Manifest}
use mini_code_agent_langgrap.Receipt.{
  is_identified, has_sections, receipt_payload, seal, load_existing_key, load_receipt,
  receipt_tests, mismatches, validate_receipt,
}

equals_items-strs : (ts : List String) → equals_items ts (strs ts) ≡ true
equals_items-strs [] = refl
equals_items-strs (t ∷ ts) = rw (eq_refl, equals_items-strs ts)

equals_bool-bool : (b : Bool) → equals_bool b (bool b) ≡ true
equals_bool-bool true = refl
equals_bool-bool false = refl

module _ (lib : Library) (m : Manifest) (trajectory : Fields) (checks : Items)
    (issued_at_ns : ℕ) where
  -- A sealed receipt is loaded back, whole, under the key that sealed it.
  pub load_receipt-seal :
      (key : String)
      → count key ≡ 32
      → let envelope = seal lib key (receipt_payload lib m trajectory checks issued_at_ns) in
        load_receipt lib (some (obj envelope)) (some key) m.id ≡ ok envelope
  unfolding load_receipt is_identified seal receipt_payload load_existing_key json_eq
  load_receipt-seal key h = simp (eq_refl, h)

  -- The payload issued for a manifest and a trajectory is valid for them, where the verification
  -- status and fingerprint of the trajectory are texts.
  pub validate_receipt-receipt_payload :
      (status fingerprint : String)
      → get_default "verification_status" (str "") trajectory ≡ str status
      → get_default "verified_fingerprint" (str "") trajectory ≡ str fingerprint
      → validate_receipt lib (receipt_payload lib m trajectory checks issued_at_ns) m trajectory
        ≡ ok tt
  unfolding validate_receipt has_sections receipt_tests mismatches receipt_payload json_eq
  validate_receipt-receipt_payload status fingerprint hs hf =
      simp (hs, hf, eq_refl, equals_items-strs, equals_bool-bool)
