-- ===== src/Manifest.antt =====
-- The transaction manifest of src/mini_code_agent/transaction.py, and an entry of its access log as
-- src/mini_code_agent/transaction_adapter.py writes it.
use mini_code_agent_langgrap.Prelude.{ℕ, Bool, List, [], ◌∷◌, Option, none, some, String, ℤ, pos}
use mini_code_agent_langgrap.Prelude.Json.{
  Json, int, str, bool, obj, Items, nil, cons, Fields, end, field,
}

pub data Status : Type 0 where
  open_ prepared committed aborted : Status

pub data Phase : Type 0 where
  started completed : Phase

pub record AccessEvent : Type 0 where
  pub sequence : ℕ
  pub tool : String
  pub phase : Phase
  pub at_ns : ℕ
  pub outcome : Option (ℤ × Bool)

-- `memory_mode` and `workspace_identity_sha256` may be missing in an old manifest.
pub record Manifest : Type 0 where
  pub version : ℕ
  pub id : String
  pub status : Status
  pub source : String
  pub baseline_commit : String
  pub baseline_fingerprint : String
  pub baseline_content_fingerprint : String
  pub prepared_fingerprint : String
  pub prepared_content_fingerprint : String
  pub prepared_source_fingerprint : String
  pub prepared_patch_sha256 : String
  pub receipt_id : String
  pub task : String
  pub memory_mode : Option String
  pub workspace_identity_sha256 : Option String
  pub created_at_ns : ℕ
  pub updated_at_ns : ℕ
  pub committed_at_ns : Option ℕ
  pub aborted_at_ns : Option ℕ
  pub trajectory : String
  pub read_set : List String
  pub write_set : List String
  pub broad_read : Bool
  pub broad_write : Bool
  pub access_log : List AccessEvent
  pub failure : String

abbrev phase_text : Phase → String
phase_text started = "started"
phase_text completed = "completed"

abbrev outcome_fields : Option (ℤ × Bool) → Fields
outcome_fields none = end
outcome_fields (some (returncode, blocked)) =
    field "returncode" (int returncode) (field "blocked" (bool blocked) end)

abbrev pub event_json : AccessEvent → Json
event_json e = obj (
    field "sequence" (int (pos e.sequence)) (
      field "tool" (str e.tool) (
        field "phase" (str (phase_text e.phase))
          (field "at_ns" (int (pos e.at_ns)) (outcome_fields e.outcome)))))

abbrev pub log_json : List AccessEvent → Items
log_json [] = nil
log_json (e ∷ log) = cons (event_json e) (log_json log)
