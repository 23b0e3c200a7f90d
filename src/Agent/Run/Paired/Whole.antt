-- ===== src/Agent/Run/Paired/Whole.antt =====
-- The graph answers every call before the model is asked again.
use mini_code_agent_langgrap.Prelude.{
  ◌≡◌, ◌≢◌, refl, sym, ◌∙◌, ap, subst, ℕ, zero, suc, false, inl, inr, List, [], ◌∷◌, ◌++◌, none,
  some, Result, ok, err, Exception, leb, arith, Bool-cases,
}
use mini_code_agent_langgrap.Prelude.Results.{Result-cases}
use mini_code_agent_langgrap.Agent.{
  AgentState, Memo, Message, system_message, human_message, ai_message, tool_message, Runtime, Node,
  model_node, tools_node, format_error_node, limit_model_tool_calls, call_model, after_answer,
  ask_model, run_node, next_node, route_after_model, calls_of_last,
}
use mini_code_agent_langgrap.Agent.Run.{Graph, run_nodes, invoke_graph, recursion_limit}
use mini_code_agent_langgrap.Agent.Run.Terminates.{after_node-cases}
use mini_code_agent_langgrap.Agent.Run.Paired.{Paired, plain, IsAi, Asked, false-true, IsAi-limit}
use mini_code_agent_langgrap.Agent.Run.Paired.Nodes.{
  Before, After, calls_of-Asked, run_tools-After, format_error-After, ask_model-ok, ask_model-err,
  model-next, tools-next, format_error-next,
}

module _ {W : Type 0} (runtime : Runtime W) where
  module _
      (answers_are_ai : (messages : List Message) (w : W) (m : Message) (w' : W)
        → runtime.invoke messages w ≡ (ok m, w')
        → IsAi m) where
    ask_model-IsAi :
        (messages : List Message) (w : W) (m : Message) (w' : W)
        → ask_model runtime messages w ≡ (ok m, w')
        → IsAi m
    unfolding ask_model
    ask_model-IsAi messages w m w' h = elim (Result-cases (runtime.compact messages)) [
      | inl (compacted, e) ↦
          answers_are_ai compacted w m w' (sym (ask_model-ok runtime messages compacted w e) ∙ h)
      | inr (x, e) ↦
          absurd (raised (ap (λ p. p.0) (sym (ask_model-err runtime messages x w e) ∙ h)))
    ]
      where
        raised : {x : Exception} → err x ≢ ok m
        raised e = cc

    to_Asked : (ms : List Message) (m : Message) → Paired ms → IsAi m → Asked (ms ++ (m ∷ []))
    to_Asked ms (ai_message content calls) paired h = record {
      before = ms;
      content = content;
      calls = calls;
      paired = paired;
      shape = refl;
    }
    to_Asked ms (system_message c) paired h = absurd (false-true h)
    to_Asked ms (human_message c) paired h = absurd (false-true h)
    to_Asked ms (tool_message c id) paired h = absurd (false-true h)

    after_answer-After :
        (s : AgentState) (memo : Memo) (r : Result Message × W)
        → Before runtime model_node s
        → ((m : Message) (w' : W) → r ≡ (ok m, w') → IsAi m)
        → After runtime model_node (after_answer runtime s memo r)
    unfolding after_answer
    after_answer-After s memo (err e, w) before ai = tt
    after_answer-After s memo (ok m, w) (open_state, paired) ai = inr (
      open_state,
      to_Asked s.messages (limit_model_tool_calls m) paired (IsAi-limit m (ai m w refl)),
    )

    call_model-After :
        (s : AgentState) (memo : Memo) (w : W)
        → Before runtime model_node s
        → After runtime model_node (call_model runtime s memo w)
    unfolding call_model
    call_model-After s memo w before = elim (Bool-cases (leb runtime.max_steps s.steps)) [
      | inl e ↦ rw e (inl (refl, before.1))
      | inr e ↦ rw e (
          after_answer-After s _ (ask_model runtime s.messages w) before
            (ask_model-IsAi s.messages w))
    ]

    run_node-After :
        (node : Node) (s : AgentState) (memo : Memo) (w : W)
        → Before runtime node s
        → After runtime node (run_node runtime node s memo w)
    unfolding run_node
    run_node-After model_node s memo w before = call_model-After s memo w before
    run_node-After tools_node s memo w before = run_tools-After runtime s memo w before.1
    run_node-After format_error_node s memo w before = format_error-After runtime s memo w before

    -- A node that ends the graph leaves every call answered.
    ended :
        (node : Node) (s : AgentState) (m : Memo) (w : W)
        → After runtime node (ok s, m, w)
        → next_node node s ≡ none
        → Paired s.messages
    ended model_node s m w (inl (done, paired)) h = paired
    ended model_node s m w (inr (open_state, asking)) h = absurd (goes s open_state h)
      where
        goes : (s : AgentState) → s.done ≡ false → next_node model_node s ≢ none
        goes s open_state h = unfold next_node in unfold route_after_model in ground arith
    ended tools_node s m w paired h = paired
    ended format_error_node s m w (open_state, paired) h = paired

    -- An answer without calls is a plain message.
    to_Paired : (ms : List Message) (asking : Asked ms) → calls_of_last ms ≡ [] → Paired ms
    to_Paired ms asking none_asked = subst Paired (sym asking.shape) (
        plain asking.before (ai_message asking.content asking.calls) asking.paired
          (sym (calls_of-Asked runtime ms asking) ∙ none_asked))

    going :
        (node later : Node) (s : AgentState) (m : Memo) (w : W)
        → After runtime node (ok s, m, w)
        → next_node node s ≡ some later
        → Before runtime later s
    going model_node later s m w (inl (done, paired)) h =
        absurd (false-true (sym (model-next runtime s later h).0 ∙ done))
    going model_node later s m w (inr (open_state, asking)) h =
        elim (model-next runtime s later h).1 [
          | inl is_tools ↦ subst (λ n. Before runtime n s) (sym is_tools) (open_state, asking)
          | inr (is_format, none_asked) ↦
              subst (λ n. Before runtime n s) (sym is_format)
                (open_state, to_Paired s.messages asking none_asked)
        ]
    going tools_node later s m w paired h =
        let (open_state, is_model) = tools-next runtime s later h in
        subst (λ n. Before runtime n s) (sym is_model) (open_state, paired)
    going format_error_node later s m w after h =
        subst (λ n. Before runtime n s) (sym (format_error-next runtime s later h)) after

    abbrev Ends : Graph runtime → Type 0
    Ends (none, m, w) = Unit {0}
    Ends (some (err e), m, w) = Unit {0}
    Ends (some (ok s), m, w) = Paired s.messages

    run_nodes-Ends :
        (fuel : ℕ) (node : Node) (s : AgentState) (memo : Memo) (w : W)
        → Before runtime node s
        → Ends (run_nodes runtime fuel node s memo w)
    unfolding run_nodes
    run_nodes-Ends zero node s memo w before = tt
    run_nodes-Ends (suc fuel) node s memo w before =
        after_node-cases runtime Ends node (run_nodes runtime fuel) (run_node runtime node s memo w)
          (λ e m w1 h. tt)
          (λ s1 m w1 h end.
            ended node s1 m w1 (subst (After runtime node) h (run_node-After node s memo w before))
              end)
          (λ s1 m w1 later h next. run_nodes-Ends fuel later s1 m w1 (
            going node later s1 m w1
              (subst (After runtime node) h (run_node-After node s memo w before)) next))

    -- Where the model answers with assistant messages only, a run that starts from a conversation
    -- whose calls are all answered, each by its id and in its order, ends with such a conversation.
    pub invoke_graph-Paired :
        (s : AgentState) (memo : Memo) (w : W) (final : AgentState)
        → s.done ≡ false
        → Paired s.messages
        → (invoke_graph runtime s memo w).0 ≡ some (ok final)
        → Paired final.messages
    unfolding invoke_graph
    invoke_graph-Paired s memo w final open_state paired h =
        ends (invoke_graph runtime s memo w)
          (unfold invoke_graph in
            run_nodes-Ends (recursion_limit runtime.max_steps) model_node s memo w
              (open_state, paired))
          h
      where
        ends : (g : Graph runtime) → Ends g → g.0 ≡ some (ok final) → Paired final.messages
        ends (none, m, w) e h = absurd (never h)
          where
            never : none ≢ some (ok final)
            never e = cc
        ends (some (err x), m, w) e h = absurd (never h)
          where
            never : some (err x) ≢ some (ok final)
            never e = cc
        ends (some (ok s1), m, w) e h = subst (λ x. Paired x.messages) (same h) e
          where
            same : some (ok s1) ≡ some (ok final) → s1 ≡ final
            same e = cc
