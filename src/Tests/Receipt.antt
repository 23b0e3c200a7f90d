-- ===== src/Tests/Receipt.antt =====
-- The receipt of a manifest and a trajectory, sealed, loaded and validated; and the gate that decides
-- on a submission.
use mini_code_agent_langgrap.Prelude.{
  ◌≡◌, refl, ◌≢◌, ◌↔◌, ◌⊎◌, true, false, none, some, String, pos, ok,
}
use mini_code_agent_langgrap.Prelude.Json.{str, int, obj, Items, cons, nil, Fields, field, end}
use mini_code_agent_langgrap.Receipt.{receipt_payload, seal, load_receipt, validate_receipt}
use mini_code_agent_langgrap.Receipt.RoundTrip.{load_receipt-seal, validate_receipt-receipt_payload}
use mini_code_agent_langgrap.Receipt.Binding.{
  SameState, IsAuthentic, validate_receipt-SameState, load_receipt-IsAuthentic,
}
use mini_code_agent_langgrap.Verification.Gate.{VerificationGate, create, failed, submission_error}
use mini_code_agent_langgrap.Verification.Gate.Laws.{submission_error-none_iff}
use mini_code_agent_langgrap.Tests.Transaction.{library, manifest, trajectory}

abbrev checks : Items
checks = cons (obj (field "name" (str "tests") (field "returncode" (int (pos 0)) end))) nil

abbrev key : String
key = "0123456789abcdef0123456789abcdef"

abbrev payload : Fields
payload = receipt_payload library manifest trajectory checks 7

load_receipt-seal_example :
    load_receipt library (some (obj (seal library key payload))) (some key) manifest.id
    ≡ ok (seal library key payload)
load_receipt-seal_example = load_receipt-seal library manifest trajectory checks 7 key refl

validate_receipt-receipt_payload_example :
    validate_receipt library payload manifest trajectory ≡ ok tt
validate_receipt-receipt_payload_example =
    validate_receipt-receipt_payload library manifest trajectory checks 7 "passed" "sha256:a.py=new"
      refl refl

payload-valid : validate_receipt library payload manifest trajectory ≡ ok tt
payload-valid =
    validate_receipt-receipt_payload library manifest trajectory checks 7 "passed" "sha256:a.py=new"
      refl refl

validate_receipt-SameState_example : SameState library manifest manifest trajectory trajectory
validate_receipt-SameState_example =
    validate_receipt-SameState library payload manifest manifest trajectory trajectory payload-valid
      payload-valid

load_receipt-IsAuthentic_example :
    (some (obj (seal library key payload)) ≡ some (obj (seal library key payload)))
    × (k : String) × (some key ≡ some k)
    × IsAuthentic library (seal library key payload) k manifest.id
load_receipt-IsAuthentic_example =
    load_receipt-IsAuthentic library (some (obj (seal library key payload))) (some key) manifest.id
      (load_receipt-seal library manifest trajectory checks 7 key refl)

abbrev gate : VerificationGate
gate = create "base" true

submission_error-none_iff_example : ((submission_error gate "base").0 ≡ none) ↔ (
    (gate.status ≢ failed)
    × ((("base" ≡ gate.baseline_fingerprint) × (gate.require_verification ≡ false))
        ⊎ (gate.verified_fingerprint ≡ "base")))
submission_error-none_iff_example = submission_error-none_iff gate "base"
