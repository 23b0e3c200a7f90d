-- ===== src/Tests/Agent.antt =====
-- A run without changes whose model submits in its first answer, and a checkpoint that is resumed.
use mini_code_agent_langgrap.Prelude.{
  ◌≡◌, refl, ap, subst, ◌+◌, ◌-◌, ◌≤◌, false, List, [], ◌∷◌, none, some, String, pos, Result, ok,
  strip,
}
use mini_code_agent_langgrap.Prelude.Json.{str, int, arr, nil, cons, Fields, field, end}
use mini_code_agent_langgrap.Verification.Gate.{
  create, to_state, from_state, sync, submission_error,
}
use mini_code_agent_langgrap.Verification.Calls.{
  ToolCall, normalize_call, normalize_calls, accepted, outcome,
}
use mini_code_agent_langgrap.Verification.Batch.{
  begin, run_calls, first_pass, decide, decide_at, submit_calls, submit_call, submitted_result,
  execute_tool_batch,
}
use mini_code_agent_langgrap.Agent.{
  AgentState, Memo, Message, Runtime, model_event, human_message, ai_message, run_node, next_node,
  call_model, ask_model, after_answer, limit_model_tool_calls, run_tools, after_batch, tools_update,
  route_after_model, route_after_tools,
}
use mini_code_agent_langgrap.Agent.Run.{recursion_limit, run_nodes, invoke_graph}
use mini_code_agent_langgrap.Agent.Run.Terminates.{invoke_graph-ends}
use mini_code_agent_langgrap.Agent.Run.Cleared.{Final, invoke_graph-Final}
use mini_code_agent_langgrap.Receipt.{to_int}
use mini_code_agent_langgrap.Agent.Run.Paired.{Paired, empty, plain, IsAi}
use mini_code_agent_langgrap.Agent.Run.Paired.Whole.{invoke_graph-Paired}
use mini_code_agent_langgrap.Agent.Resume.{Session, saved_gate, with_notice, restore_state}
use mini_code_agent_langgrap.Agent.Resume.Untrusting.{IsUntrusting, restore_state-IsUntrusting}
use mini_code_agent_langgrap.Tests.Batch.{host, call}
use mini_code_agent_langgrap.Tests.Transaction.{library}

abbrev calls : List ToolCall
calls = call "submit" ∷ []

abbrev runtime : Runtime String
runtime = record {
  host = host;
  max_steps = 3;
  compact = λ messages. ok messages;
  invoke = λ messages w. (ok (ai_message "" calls), w);
  observe = λ result. result.output;
  save = λ checkpoint w. (ok tt, w);
}

abbrev start : AgentState
start = record {
  messages = human_message "Task" ∷ [];
  steps = 0;
  done = false;
  exit_status = "";
  submission = "";
  gate = to_state (create "base" false);
  events = [];
}

abbrev memo : Memo
memo = record {
  last_gate = none;
  resume_state = none;
  event_log = [];
  model_attempts = 0;
  model_calls = 0;
  model_failures = 0;
}

invoke_graph-ends_example :
    let (result, memo', _) = invoke_graph runtime start memo "base" in
    ((r : Result AgentState) × (result ≡ some r))
    × (memo'.model_calls ≤ memo.model_calls + (runtime.max_steps - start.steps))
invoke_graph-ends_example = invoke_graph-ends runtime start memo "base"

-- The state after the answer.
abbrev answered : AgentState
answered = record start {
  messages = human_message "Task" ∷ ai_message "" calls ∷ [];
  steps = 1;
  events = model_event 1 1 (ai_message "" calls) ∷ [];
}

abbrev final : AgentState
final =
    let (batch, gate, _) = execute_tool_batch host calls (from_state start.gate) "base" in
    tools_update runtime answered batch gate

ended : (invoke_graph runtime start memo "base").0 ≡ some (ok final)
unfolding invoke_graph recursion_limit run_nodes run_node next_node call_model ask_model
    after_answer limit_model_tool_calls run_tools after_batch tools_update route_after_model
    route_after_tools normalize_call normalize_calls begin sync run_calls first_pass create decide
    decide_at submission_error submit_calls submit_call submitted_result outcome accepted
    execute_tool_batch from_state to_state
ended = refl

submitted : final.exit_status ≡ "Submitted"
unfolding tools_update normalize_call normalize_calls begin sync run_calls first_pass create decide
    decide_at submission_error submit_calls submit_call submitted_result outcome accepted
    execute_tool_batch from_state to_state
submitted = refl

invoke_graph-Final_example : Final runtime start memo "base" final
invoke_graph-Final_example = invoke_graph-Final runtime start memo "base" final refl ended submitted

invoke_graph-Paired_example : Paired final.messages
invoke_graph-Paired_example =
    invoke_graph-Paired runtime assistant start memo "base" final refl
      (plain [] (human_message "Task") empty tt) ended
  where
    assistant :
        (messages : List Message) (w : String) (m : Message) (w' : String)
        → runtime.invoke messages w ≡ (ok m, w')
        → IsAi m
    assistant messages w m w' h = subst IsAi (same (ap (λ p. p.0) h)) tt
      where
        same : ok (ai_message "" calls) ≡ ok m → ai_message "" calls ≡ m
        same e = cc

-- A checkpoint that claims a verified fingerprint.
abbrev checkpoint : Fields
checkpoint = field "resume_schema" (int (pos 1)) (
    field "cwd" (str "/work") (
      field "task" (str "Task") (
        field "messages" (arr (cons (str "Task") nil)) (
          field "baseline_fingerprint" (str "base")
            (field "verified_fingerprint" (str "edited") (field "steps" (int (pos 2)) end))))))

abbrev session : Session
session = record {
  library = library;
  cwd = "/work";
  absolute = λ p. p;
  messages_of = λ raw. ok (human_message "Task" ∷ []);
  events_of = λ fields. [];
  load_undo = λ fields. ok tt;
}

abbrev restored : AgentState
restored = record {
  messages = with_notice (human_message "Task" ∷ []);
  steps = 2;
  done = false;
  exit_status = "";
  submission = "";
  gate = to_state (sync (saved_gate library checkpoint) "edited");
  events = [];
}

resumed : restore_state session checkpoint "" "edited" ≡ ok (restored, "Task")
unfolding restore_state to_int strip
resumed = refl

restore_state-IsUntrusting_example : IsUntrusting restored "edited"
restore_state-IsUntrusting_example =
    restore_state-IsUntrusting session checkpoint "" "edited" restored "Task" resumed
