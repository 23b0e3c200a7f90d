-- ===== src/Verification/Capture.antt =====
-- `capture_workspace_fingerprint` of src/mini_code_agent/verification.py, and the executor that it
-- asks. The world `W` is what an executor can read and change.
use mini_code_agent_langgrap.Prelude.{
  Option, none, some, List, [], ◌∷◌, String, Result, ok, err, ◌==◌, if◌then◌else◌,
}
use mini_code_agent_langgrap.Prelude.Json.{Fields, str, obj, end, field}
use mini_code_agent_langgrap.Prelude.Library.{Library}
use mini_code_agent_langgrap.Contracts.{ToolArgs, ToolResult}

-- What an executor's own `workspace_fingerprint` returns: a text, or an object whose attributes
-- `fingerprint` (if it is a text) and `files` (if it is a dict) are read.
pub data NativeValue : Type 0 where
  text : String → NativeValue
  snapshot : Option String → Option (List (String × String)) → NativeValue

-- `workspace_fingerprint` is `none` where the executor has no such method; it is called with the
-- ignored paths, or with no argument. `capture_snapshot` is the fingerprint of
-- `WorkspaceSnapshot.capture(executor.cwd, ...)`.
pub record Executor (W : Type 0) : Type 0 where
  pub execute_tool : String → ToolArgs → W → Result ToolResult × W
  pub workspace_fingerprint : Option (Option (List String) → W → Result NativeValue × W)
  pub capture_snapshot : List String → W → Result String × W

abbrev files_json : List (String × String) → Fields
files_json [] = end
files_json ((path, digest) ∷ rest) = field path (str digest) (files_json rest)

unfoldable pub fingerprint_files : Library → List (String × String) → String
fingerprint_files h files = h.sha256_hex (h.canonical_json (obj (files_json files)))

unfoldable pub read_native : Library → NativeValue → Option String
read_native h (text value) = some value
read_native h (snapshot (some fingerprint) files) = some fingerprint
read_native h (snapshot none (some files)) = some (fingerprint_files h files)
read_native h (snapshot none none) = none

module _ {W : Type 0} (h : Library) (executor : Executor W) where
  unfoldable pub or_snapshot : List String → Option String → W → Result String × W
  or_snapshot ignored (some value) w = (ok value, w)
  or_snapshot ignored none w = executor.capture_snapshot ignored w

  unfoldable pub use_native : List String → Result NativeValue × W → Result String × W
  unfolding or_snapshot read_native
  use_native ignored (ok value, w) = or_snapshot ignored (read_native h value) w
  use_native ignored (err e, w) = (err e, w)

  -- `except TypeError: value = native()`
  unfoldable pub retry_native :
      (Option (List String) → W → Result NativeValue × W)
      → Result NativeValue × W
      → Result NativeValue × W
  retry_native native (ok value, w) = (ok value, w)
  retry_native native (err e, w) = if e.name == "TypeError" then native none w else (err e, w)

  unfoldable pub capture_workspace_fingerprint : List String → W → Result String × W
  unfolding use_native retry_native
  capture_workspace_fingerprint ignored w = elim executor.workspace_fingerprint [
    | none ↦ executor.capture_snapshot ignored w
    | some native ↦ use_native ignored (retry_native native (native (some ignored) w))
  ]
