-- ===== src/Agent/Run/Paired/Nodes.antt =====
-- What each node of the graph does to the calls of the conversation.
use mini_code_agent_langgrap.Prelude.{
  ◌≡◌, refl, sym, ◌∙◌, ap, subst, true, false, ◌⊎◌, List, [], ◌∷◌, ◌++◌, map, none, some, Result,
  ok, err, Exception, arith,
}
use mini_code_agent_langgrap.Agent.{
  AgentState, Memo, Message, ai_message, Runtime, Outcome, Node, model_node, tools_node,
  format_error_node, ask_model, run_tools, after_batch, after_save, tool_messages, tools_update,
  format_error, correction, next_node, route_after_model, route_after_tools, calls_of,
  calls_of_last,
}
use mini_code_agent_langgrap.Contracts.{ExecutedToolCall, ToolBatchOutcome}
use mini_code_agent_langgrap.Verification.Gate.{VerificationGate, from_state}
use mini_code_agent_langgrap.Verification.Calls.{Call, normalize_calls}
use mini_code_agent_langgrap.Verification.Batch.Order.{asked, answered, execute_tool_batch-answered}
use mini_code_agent_langgrap.Agent.Run.Paired.{
  Answers, Paired, plain, block, Asked, last_message-snoc,
}

module _ {W : Type 0} (runtime : Runtime W) where
  tool_messages-Answers :
      (executed : List ExecutedToolCall)
      → Answers (map (λ e. e.tool_call_id) executed) (tool_messages runtime executed)
  unfolding tool_messages
  tool_messages-Answers [] = tt
  tool_messages-Answers (e ∷ rest) = (refl, tool_messages-Answers rest)

  answered_ids :
      (executed : List ExecutedToolCall) (calls : List Call)
      → map answered executed ≡ map asked calls
      → map (λ e. e.tool_call_id) executed ≡ map (λ c. c.id) calls
  answered_ids executed calls h =
      sym (map_ids executed) ∙ ap (map (λ p. p.2)) h ∙ map_call_ids calls
    where
      map_ids :
          (xs : List ExecutedToolCall)
          → map (λ p. p.2) (map answered xs) ≡ map (λ e. e.tool_call_id) xs
      map_ids [] = refl
      map_ids (x ∷ xs) = ap (λ l. x.tool_call_id ∷ l) (map_ids xs)

      map_call_ids : (xs : List Call) → map (λ p. p.2) (map asked xs) ≡ map (λ c. c.id) xs
      map_call_ids [] = refl
      map_call_ids (x ∷ xs) = ap (λ l. x.id ∷ l) (map_call_ids xs)

  -- What holds of the state before a node, and of what the node leaves.
  abbrev pub Before : Node → AgentState → Type 0
  Before model_node s = (s.done ≡ false) × Paired s.messages
  Before tools_node s = (s.done ≡ false) × Asked s.messages
  Before format_error_node s = (s.done ≡ false) × Paired s.messages

  abbrev pub After : Node → Outcome W → Type 0
  After node (err e, m, w) = Unit {0}
  After model_node (ok s, m, w) =
      ((s.done ≡ true) × Paired s.messages) ⊎ ((s.done ≡ false) × Asked s.messages)
  After tools_node (ok s, m, w) = Paired s.messages
  After format_error_node (ok s, m, w) = (s.done ≡ false) × Paired s.messages

  after_batch-After :
      (s : AgentState) (memo : Memo) (b : ToolBatchOutcome × VerificationGate × W)
      (asking : Asked s.messages)
      → map answered b.0.calls ≡ map asked (normalize_calls 0 asking.calls)
      → After tools_node (after_batch runtime s memo b)
  unfolding after_batch tools_update
  after_batch-After s memo (batch, gate, w) asking ids = saved _ _ _ (
      subst (λ l. Paired (l ++ tool_messages runtime batch.calls)) (sym asking.shape)
        (block asking.before asking.content asking.calls (tool_messages runtime batch.calls)
          asking.paired
          (subst (λ l. Answers l (tool_messages runtime batch.calls))
            (answered_ids batch.calls _ ids) (tool_messages-Answers batch.calls))))
    where
      saved :
          (s1 : AgentState) (m : Memo) (r : Result (Unit {0}) × W)
          → Paired s1.messages
          → After tools_node (after_save runtime s1 m r)
      saved s1 m (ok _, w) h = h
      saved s1 m (err e, w) h = tt

  pub calls_of-Asked : (ms : List Message) (asking : Asked ms) → calls_of_last ms ≡ asking.calls
  calls_of-Asked ms asking =
      ap calls_of_last asking.shape
      ∙ ap (λ o. elim o [ none ↦ [] | some m ↦ calls_of m ])
          (last_message-snoc asking.before (ai_message asking.content asking.calls))

  pub run_tools-After :
      (s : AgentState) (memo : Memo) (w : W)
      → Asked s.messages
      → After tools_node (run_tools runtime s memo w)
  unfolding run_tools
  run_tools-After s memo w asking = after_batch-After s memo _ asking (
      rw (calls_of-Asked s.messages asking)
        (execute_tool_batch-answered runtime.host asking.calls (from_state s.gate) w))

  pub format_error-After :
      (s : AgentState) (memo : Memo) (w : W)
      → Before format_error_node s
      → After format_error_node (format_error runtime s memo w)
  unfolding format_error
  format_error-After s memo w (open_state, paired) =
      saved _ _ _ open_state (plain s.messages (correction runtime) paired tt)
    where
      saved :
          (s1 : AgentState) (m : Memo) (r : Result (Unit {0}) × W)
          → s1.done ≡ false
          → Paired s1.messages
          → After format_error_node (after_save runtime s1 m r)
      saved s1 m (ok _, w) h k = (h, k)
      saved s1 m (err e, w) h k = tt

  pub ask_model-ok :
      (messages compacted : List Message) (w : W)
      → runtime.compact messages ≡ ok compacted
      → ask_model runtime messages w ≡ runtime.invoke compacted w
  unfolding ask_model
  ask_model-ok messages compacted w e = rw (e, ask_model) refl

  pub ask_model-err :
      (messages : List Message) (x : Exception) (w : W)
      → runtime.compact messages ≡ err x
      → ask_model runtime messages w ≡ (err x, w)
  unfolding ask_model
  ask_model-err messages x w e = rw (e, ask_model) refl

  -- The routes of a state that is not done.
  pub model-next :
      (s : AgentState) (later : Node)
      → next_node model_node s ≡ some later
      → (s.done ≡ false)
        × ((later ≡ tools_node) ⊎ ((later ≡ format_error_node) × (calls_of_last s.messages ≡ [])))
  unfolding next_node route_after_model
  model-next s later h = ground arith

  pub tools-next :
      (s : AgentState) (later : Node)
      → next_node tools_node s ≡ some later
      → (s.done ≡ false) × (later ≡ model_node)
  unfolding next_node route_after_tools
  tools-next s later h = ground arith

  pub format_error-next :
      (s : AgentState) (later : Node)
      → next_node format_error_node s ≡ some later
      → later ≡ model_node
  unfolding next_node
  format_error-next s later h = cc
