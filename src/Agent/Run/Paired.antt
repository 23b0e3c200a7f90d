-- ===== src/Agent/Run/Paired.antt =====
-- Every tool call of the conversation is answered, before the model is asked again.
pub mod Nodes
pub mod Whole
use mini_code_agent_langgrap.Prelude.{
  ◌≡◌, ◌≢◌, refl, sym, ◌∙◌, ap, subst, ℕ, zero, suc, true, false, ◌⊎◌, inl, inr, List, [], ◌∷◌,
  ◌++◌, map, none, some, String, Result, ok, err, Exception, length, leb, arith, Bool-cases,
}
use mini_code_agent_langgrap.Prelude.Results.{Result-cases}
use mini_code_agent_langgrap.Agent.{
  AgentState, Memo, Message, system_message, human_message, ai_message, tool_message, Runtime,
  Outcome, Node, model_node, tools_node, format_error_node, limit_model_tool_calls,
  max_tool_calls_per_message, call_model, after_answer, ask_model, run_tools, after_batch,
  after_save, tool_messages, tools_update, format_error, correction, run_node, next_node,
  route_after_model, route_after_tools, calls_of, calls_of_last, last_message,
}
use mini_code_agent_langgrap.Contracts.{ExecutedToolCall, ToolBatchOutcome}
use mini_code_agent_langgrap.Verification.Gate.{VerificationGate, from_state}
use mini_code_agent_langgrap.Verification.Calls.{ToolCall, Call, normalize_calls}
use mini_code_agent_langgrap.Verification.Batch.Order.{asked, answered, execute_tool_batch-answered}
use mini_code_agent_langgrap.Agent.Run.{Graph, run_nodes, invoke_graph, recursion_limit}
use mini_code_agent_langgrap.Agent.Run.Terminates.{after_node-cases}

-- A message that asks for no tool and answers none.
abbrev pub IsPlain : Message → Type 0
IsPlain (system_message content) = Unit {0}
IsPlain (human_message content) = Unit {0}
IsPlain (ai_message content calls) = calls ≡ []
IsPlain (tool_message content id) = (false ≡ true)

-- The tool messages that answer calls, by their ids and in their order.
abbrev pub Answers : List String → List Message → Type 0
Answers [] [] = Unit {0}
Answers (id ∷ ids) (tool_message content answered_id ∷ rest) = (answered_id ≡ id) × Answers ids rest
Answers _ _ = (false ≡ true)

abbrev pub call_ids : List ToolCall → List String
call_ids calls = map (λ c. c.id) (normalize_calls 0 calls)

-- A conversation whose calls are all answered.
pub data Paired : List Message → Type 0 where
  empty : Paired []
  plain : (ms : List Message) (m : Message) → Paired ms → IsPlain m → Paired (ms ++ (m ∷ []))
  block :
      (ms : List Message) (content : String) (calls : List ToolCall) (tools : List Message)
      → Paired ms
      → Answers (call_ids calls) tools
      → Paired ((ms ++ (ai_message content calls ∷ [])) ++ tools)

-- What a model answers.
abbrev pub IsAi : Message → Type 0
IsAi (ai_message content calls) = Unit {0}
IsAi _ = (false ≡ true)

-- A conversation whose last calls are open.
pub record Asked (messages : List Message) : Type 0 where
  pub before : List Message
  pub content : String
  pub calls : List ToolCall
  pub paired : Paired before
  pub shape : messages ≡ before ++ (ai_message content calls ∷ [])

pub false-true : false ≢ true
false-true e = cc

pub IsAi-limit : (m : Message) → IsAi m → IsAi (limit_model_tool_calls m)
unfolding limit_model_tool_calls
IsAi-limit (ai_message content calls) h =
    elim (Bool-cases (leb (length calls) max_tool_calls_per_message)) [
      | inl e ↦ rw e tt
      | inr e ↦ rw e tt
    ]
IsAi-limit (system_message c) h = absurd (false-true h)
IsAi-limit (human_message c) h = absurd (false-true h)
IsAi-limit (tool_message c id) h = absurd (false-true h)

pub last_message-snoc :
    (messages : List Message) (m : Message) → last_message (messages ++ (m ∷ [])) ≡ some m
last_message-snoc [] m = refl
last_message-snoc (x ∷ []) m = refl
last_message-snoc (x ∷ y ∷ rest) m = last_message-snoc (y ∷ rest) m
