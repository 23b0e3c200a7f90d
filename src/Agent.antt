-- ===== src/Agent.antt =====
-- `MiniCodeAgent` of src/mini_code_agent/agent.py: the state, the nodes of its graph and the routes
-- between them. A node returns the state as the reducers of AgentState leave it. `Memo` is what the
-- agent keeps in its own attributes. The events are without their redacted texts, and the token
-- counts of the model's answers are not modelled.
pub mod Run
pub mod Resume
use mini_code_agent_langgrap.Prelude.{
  ℕ, suc, ◌+◌, Bool, true, false, not, ◌&&◌, List, [], ◌∷◌, ◌++◌, map, Option, none, some, String,
  Result, ok, err, Exception, ◌==◌, leb, ltb, length, take, concat, decimal, if◌then◌else◌,
}
use mini_code_agent_langgrap.Contracts.{ToolResult, ExecutedToolCall, ToolBatchOutcome}
use mini_code_agent_langgrap.Verification.Gate.{VerificationGate, GateState, from_state, to_state}
use mini_code_agent_langgrap.Verification.Calls.{ToolCall}
use mini_code_agent_langgrap.Verification.Batch.{Host, execute_tool_batch}

-- The messages of langchain that the agent tells apart.
pub data Message : Type 0 where
  system_message : String → Message
  human_message : String → Message
  ai_message : String → List ToolCall → Message
  tool_message : String → String → Message

abbrev pub calls_of : Message → List ToolCall
calls_of (ai_message content calls) = calls
calls_of _ = []

pub data Event : Type 0 where
  limit_event : ℕ → Event
  model_event : ℕ → ℕ → Message → Event
  tool_event : ℕ → ExecutedToolCall → Event
  format_error_event : ℕ → Event
  error_event : ℕ → Exception → Event
  saved_event : String → Event

pub record AgentState : Type 0 where
  pub messages : List Message
  pub steps : ℕ
  pub done : Bool
  pub exit_status : String
  pub submission : String
  pub gate : GateState
  pub events : List Event

-- `_last_gate`, `_resume_state`, `_event_log` and the counts of `_usage`.
pub record Memo : Type 0 where
  pub last_gate : Option VerificationGate
  pub resume_state : Option AgentState
  pub event_log : List Event
  pub model_attempts : ℕ
  pub model_calls : ℕ
  pub model_failures : ℕ

-- What `_checkpoint` saves of a state, besides the task and the usage.
pub record Checkpoint : Type 0 where
  pub exit_status : String
  pub steps : ℕ
  pub resumable : Bool
  pub state : AgentState

-- `compact` is `compact_messages` under the agent's budget, `invoke` the bound model, `observe` the
-- redacted JSON text of an observation, and `save` the write of a checkpoint to the trajectory.
pub record Runtime (W : Type 0) : Type 0 where
  pub host : Host W
  pub max_steps : ℕ
  pub compact : List Message → Result (List Message)
  pub invoke : List Message → W → Result Message × W
  pub observe : ToolResult → String
  pub save : Checkpoint → W → Result (Unit {0}) × W

abbrev pub max_tool_calls_per_message : ℕ
max_tool_calls_per_message = 32

-- `limit_model_tool_calls`
unfoldable pub limit_model_tool_calls : Message → Message
limit_model_tool_calls (ai_message content calls) =
    if leb (length calls) max_tool_calls_per_message
    then ai_message content calls
    else ai_message
        (concat (
          content
          ∷ "\n[Runtime kept the first "
          ∷ decimal max_tool_calls_per_message
          ∷ " of "
          ∷ decimal (length calls)
          ∷ " tool calls; split further work into later turns.]"
          ∷ []))
        (take max_tool_calls_per_message calls)
limit_model_tool_calls message = message

-- What a node leaves: the state, or what it raised, the agent's attributes and the world.
abbrev pub Outcome : Type 0 → Type 0
Outcome W = Result AgentState × Memo × W

abbrev pub last_message : List Message → Option Message
last_message [] = none
last_message (m ∷ []) = some m
last_message (m ∷ n ∷ rest) = last_message (n ∷ rest)

abbrev pub calls_of_last : List Message → List ToolCall
calls_of_last messages = elim (last_message messages) [ none ↦ [] | some m ↦ calls_of m ]

module _ {W : Type 0} (runtime : Runtime W) where
  unfoldable pub checkpoint_of : String → ℕ → AgentState → Checkpoint
  checkpoint_of exit_status steps state = record {
    exit_status = exit_status;
    steps = steps;
    resumable = not (exit_status == "Submitted");
    state = state;
  }

  -- A node that ends with a checkpoint.
  abbrev pub after_save : AgentState → Memo → Result (Unit {0}) × W → Outcome W
  after_save state memo (ok _, w) = (ok state, memo, w)
  after_save state memo (err e, w) = (err e, memo, w)

  -- The model's answer to the compacted messages.
  unfoldable pub ask_model : List Message → W → Result Message × W
  ask_model messages w = elim (runtime.compact messages) [
    | err e ↦ (err e, w)
    | ok compacted ↦ runtime.invoke compacted w
  ]

  unfoldable pub after_answer : AgentState → Memo → Result Message × W → Outcome W
  unfolding limit_model_tool_calls
  after_answer s memo (err e, w) =
      (err e, record memo { model_failures = memo.model_failures + 1 }, w)
  after_answer s memo (ok response, w) =
      let kept : Message = limit_model_tool_calls response in
      let event : Event = model_event (s.steps + 1) memo.model_attempts kept in
      (
        ok (record s {
          messages = s.messages ++ (kept ∷ []);
          steps = s.steps + 1;
          events = s.events ++ (event ∷ []);
        }),
        record memo {
          model_calls = memo.model_calls + 1;
          event_log = memo.event_log ++ (event ∷ []);
        },
        w,
      )

  -- `_call_model`
  unfoldable pub call_model : AgentState → Memo → W → Outcome W
  unfolding ask_model after_answer
  call_model s memo w =
      let gated : Memo = record memo { last_gate = some (from_state s.gate) } in
      let answered =
        after_answer s (record gated { model_attempts = memo.model_attempts + 1 })
          (ask_model s.messages w) in
      if leb runtime.max_steps s.steps
      then (
        ok (record s {
          done = true;
          exit_status = "StepLimitExceeded";
          submission = "";
          events = s.events ++ (limit_event s.steps ∷ []);
        }),
        gated,
        w,
      )
      else answered

  unfoldable pub tool_messages : List ExecutedToolCall → List Message
  tool_messages [] = []
  tool_messages (executed ∷ rest) =
      tool_message (runtime.observe executed.result) executed.tool_call_id ∷ tool_messages rest

  -- The update of `_run_tools`, as it is reduced into the state. The tool messages are new and have no
  -- id, so the reducer `add_messages` gives each a fresh one and appends them.
  unfoldable pub tools_update : AgentState → ToolBatchOutcome → VerificationGate → AgentState
  unfolding tool_messages
  tools_update s batch gate = record {
    messages = s.messages ++ tool_messages batch.calls;
    steps = s.steps;
    done = batch.submitted;
    exit_status = if batch.submitted then "Submitted" else s.exit_status;
    submission = if batch.submitted then batch.submission else s.submission;
    gate = to_state gate;
    events = s.events ++ map (tool_event s.steps) batch.calls;
  }

  -- What follows the batch: the checkpoint.
  unfoldable pub after_batch :
      AgentState → Memo → ToolBatchOutcome × VerificationGate × W → Outcome W
  unfolding tools_update checkpoint_of
  after_batch s memo (batch, gate, w) =
      let updated : AgentState = tools_update s batch gate in
      after_save updated
        (record memo {
          last_gate = some gate;
          resume_state = some updated;
          event_log = memo.event_log ++ map (tool_event s.steps) batch.calls;
        })
        (runtime.save
          (checkpoint_of (if batch.submitted then "Submitted" else "Running") s.steps updated) w)

  -- `_run_tools`
  unfoldable pub run_tools : AgentState → Memo → W → Outcome W
  unfolding after_batch
  run_tools s memo w =
      after_batch s memo
        (execute_tool_batch runtime.host (calls_of_last s.messages) (from_state s.gate) w)

  abbrev pub correction : Message
  correction = human_message (
      concat (
        "Your previous response did not call any tool. "
        ∷ "Every response must include at least one tool call. "
        ∷ "Prefer read_file, apply_patch, run_tests, and git_diff for coding work. "
        ∷ "To finish, call submit with a concise summary." ∷ []))

  -- `_format_error`
  unfoldable pub format_error : AgentState → Memo → W → Outcome W
  unfolding checkpoint_of
  format_error s memo w =
      let event : Event = format_error_event s.steps in
      let updated : AgentState = record s {
        messages = s.messages ++ (correction ∷ []);
        events = s.events ++ (event ∷ []);
      } in
      after_save updated
        (record memo { resume_state = some updated; event_log = memo.event_log ++ (event ∷ []) })
        (runtime.save (checkpoint_of "Running" s.steps updated) w)

pub data Node : Type 0 where
  model_node tools_node format_error_node : Node

abbrev has_calls : List ToolCall → Bool
has_calls [] = false
has_calls (_ ∷ _) = true

-- `_route_after_model`; `none` is the graph's END.
unfoldable pub route_after_model : AgentState → Option Node
route_after_model s =
    if s.done
    then none
    else if has_calls (calls_of_last s.messages)
    then some tools_node
    else some format_error_node

-- `_route_after_tools`
unfoldable pub route_after_tools : AgentState → Option Node
route_after_tools s = if s.done then none else some model_node

-- The nodes and edges of `_build_graph`.
unfoldable pub run_node : {W : Type 0} → Runtime W → Node → AgentState → Memo → W → Outcome W
unfolding call_model run_tools format_error
run_node runtime model_node = call_model runtime
run_node runtime tools_node = run_tools runtime
run_node runtime format_error_node = format_error runtime

unfoldable pub next_node : Node → AgentState → Option Node
unfolding route_after_model route_after_tools
next_node model_node s = route_after_model s
next_node tools_node s = route_after_tools s
next_node format_error_node s = some model_node
