-- ===== src/Adapter.antt =====
-- `TransactionExecutor` of src/mini_code_agent/transaction_adapter.py: a tool run whose accesses are
-- logged in the manifest of a transaction. The state is the manifest that the executor holds, and the
-- world of the store. `relative` is `Path` arithmetic: the path below the executor's directory, `none`
-- for one outside; `truth_text` is the text of an argument, `none` for one that is false.
-- The manifest that an exception leaves in the executor is not a result.
use mini_code_agent_langgrap.Prelude.{
  ℕ, ◌+◌, ◌||◌, List, [], ◌∷◌, ◌++◌, Option, none, some, String, contains, is_empty, length,
  if◌then◌else◌,
}
use mini_code_agent_langgrap.Prelude.Json.{Fields}
use mini_code_agent_langgrap.Contracts.{ToolResult}
use mini_code_agent_langgrap.Manifest.{Manifest, AccessEvent, started, completed}
use mini_code_agent_langgrap.Workspace.{sorted_set}
use mini_code_agent_langgrap.Transaction.Store.{Env, Action, read_clock, save, ◌>>=◌, pure}

abbrev pub read_tools : List String
read_tools = "read_file" ∷ []

abbrev pub broad_read_tools : List String
broad_read_tools = "bash" ∷ "list_files" ∷ "search_files" ∷ "git_diff" ∷ "run_tests" ∷ []

abbrev pub write_tools : List String
write_tools = "bash" ∷ "write_file" ∷ "apply_patch" ∷ "replace_lines" ∷ []

abbrev pub broad_write_tools : List String
broad_write_tools = "bash" ∷ "run_tests" ∷ []

pub record Wrapped (Tree : Type 0) : Type 0 where
  pub execute_tool : String → Fields → Action Tree ToolResult
  pub relative : String → Option String
  pub truth_text : Fields → Option String

-- `values.append(path); values.sort()`, unless the path is there; the values have no duplicates,
-- since only this adds to them.
abbrev add_sorted : String → List String → List String
add_sorted path values = if contains path values then values else sorted_set (path ∷ values)

abbrev add_relative : Option String → List String → List String
add_relative none values = values
add_relative (some path) values = add_sorted path values

module _ {Tree : Type 0} (wrapped : Wrapped Tree) where
  -- `_add_path("read_set", path)` and `_add_path("write_set", path)`
  unfoldable pub add_read : String → Manifest → Manifest
  add_read path m = record m { read_set = add_relative (wrapped.relative path) m.read_set }

  unfoldable pub add_write : String → Manifest → Manifest
  add_write path m = record m { write_set = add_relative (wrapped.relative path) m.write_set }

  abbrev pub declared_paths : String → Option String → Manifest → Manifest
  declared_paths name none m = m
  declared_paths name (some path) m =
      let m' : Manifest = if contains name read_tools then add_read path m else m in
      if contains name write_tools then add_write path m' else m'

  -- The manifest's accesses as they are known before the tool runs.
  unfoldable pub declare : String → Fields → Manifest → Manifest
  unfolding add_read add_write
  declare name args m = declared_paths name (wrapped.truth_text args) (record m {
    broad_read = contains name broad_read_tools || m.broad_read;
    broad_write = contains name broad_write_tools || m.broad_write;
  })

  -- The path that the tool reports.
  unfoldable pub report_path : String → ToolResult → Manifest → Manifest
  unfolding add_read add_write
  report_path name result m =
      if is_empty result.file_path
      then m
      else if contains name write_tools
      then add_write result.file_path m
      else if contains name read_tools
      then add_read result.file_path m
      else m

abbrev pub started_event : ℕ → String → ℕ → AccessEvent
started_event sequence name at = record {
  sequence = sequence;
  tool = name;
  phase = started;
  at_ns = at;
  outcome = none;
}

-- The last event, completed.
abbrev pub complete_last : ToolResult → AccessEvent → AccessEvent
complete_last result e = record e {
  phase = completed;
  outcome = some (result.returncode, result.blocked);
}

-- `execute_tool`: the tool's result and the manifest, or what was raised.
unfoldable pub execute_tool :
    {Tree : Type 0}
    → Env Tree
    → Wrapped Tree
    → Manifest
    → String
    → Fields
    → Action Tree (ToolResult × Manifest)
unfolding declare report_path
execute_tool env wrapped m name args = do
  now ← read_clock env
  let event : AccessEvent = started_event (length m.access_log + 1) name now
  let declared : Manifest = declare wrapped name args m
  opened ← save env (record declared { access_log = declared.access_log ++ (event ∷ []) })
  result ← wrapped.execute_tool name args
  let reported : Manifest = report_path wrapped name result opened
  closed ←
      save env (record reported { access_log = m.access_log ++ (complete_last result event ∷ []) })
  pure (result, closed)
