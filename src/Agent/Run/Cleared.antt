-- ===== src/Agent/Run/Cleared.antt =====
-- A run that ends as submitted was cleared by the gate.
use mini_code_agent_langgrap.Prelude.{
  ◌≡◌, ◌≢◌, refl, sym, ◌∙◌, subst, ℕ, zero, suc, true, false, ◌⊎◌, inl, inr, none, some, Result, ok,
  err, ◌==◌, leb, eq_iff, arith, Bool-cases,
}
use mini_code_agent_langgrap.Agent.{
  AgentState, Memo, Message, Runtime, Outcome, Node, model_node, tools_node, format_error_node,
  call_model, after_answer, ask_model, run_tools, after_batch, after_save, tools_update,
  format_error, run_node, next_node, route_after_tools, calls_of_last,
}
use mini_code_agent_langgrap.Verification.Gate.{from_state, to_state}
use mini_code_agent_langgrap.Verification.Batch.{execute_tool_batch}
use mini_code_agent_langgrap.Verification.Batch.Cleared.{
  IsCleared, execute_tool_batch-IsCleared, before_submit,
}
use mini_code_agent_langgrap.Agent.Run.{Graph, run_nodes, invoke_graph, recursion_limit}
use mini_code_agent_langgrap.Agent.Run.Terminates.{after_node-cases}

-- A node of the run that starts at the model node with `s0`, `memo0` and `w0`, and the state, the memo
-- and the world that it begins with.
pub data Reached {W : Type 0} (runtime : Runtime W) (s0 : AgentState) (memo0 : Memo) (w0 : W)
    : Node → AgentState → Memo → W → Type 0 where
  begun : Reached runtime s0 memo0 w0 model_node s0 memo0 w0
  followed :
      {node later : Node} {s s' : AgentState} {memo memo' : Memo} {w w' : W}
      → Reached runtime s0 memo0 w0 node s memo w
      → run_node runtime node s memo w ≡ (ok s', memo', w')
      → next_node node s' ≡ some later
      → Reached runtime s0 memo0 w0 later s' memo' w'

module _ {W : Type 0} (runtime : Runtime W) (s0 : AgentState) (memo0 : Memo) (w0 : W) where
  -- The gate of `s` is the one that the batch of a tools node of the run returned, and it is cleared at
  -- the fingerprint that was captured after all calls of that batch but the submit calls.
  abbrev pub Final : AgentState → Type 0
  Final s =
      (s1 : AgentState) × (memo1 : Memo) × (w1 : W) × Reached runtime s0 memo0 w0 tools_node s1
        memo1 w1
      × let calls = calls_of_last s1.messages in
        let (batch, gate, _) = execute_tool_batch runtime.host calls (from_state s1.gate) w1 in
        (batch.submitted ≡ true)
        × (s.gate ≡ to_state gate)
        × IsCleared gate
        × (w' : W) × (runtime.host.capture
              (before_submit runtime.host calls (from_state s1.gate) w1).world
            ≡ (ok gate.current_fingerprint, w'))

  -- A state that is not submitted, or one that is final.
  abbrev Open : AgentState → Type 0
  Open s = (s.exit_status == "Submitted") ≡ false

  -- A state that a run ends in.
  abbrev Ended : AgentState → Type 0
  Ended s = Open s ⊎ Final s

  abbrev After : Node → Outcome W → Type 0
  After node (err e, m, w) = Unit {0}
  After node (ok s, m, w) = Open s ⊎ (Final s × (next_node node s ≡ none))

  after_answer-After :
      (s : AgentState) (memo : Memo) (r : Result Message × W)
      → Open s
      → After model_node (after_answer runtime s memo r)
  unfolding after_answer
  after_answer-After s memo (err e, w) open_state = tt
  after_answer-After s memo (ok m, w) open_state = inl open_state

  call_model-After :
      (s : AgentState) (memo : Memo) (w : W)
      → Open s
      → After model_node (call_model runtime s memo w)
  unfolding call_model
  call_model-After s memo w open_state = elim (Bool-cases (leb runtime.max_steps s.steps)) [
    | inl e ↦ rw e (inl refl)
    | inr e ↦ rw e (after_answer-After s _ (ask_model runtime s.messages w) open_state)
  ]

  after_save-After :
      (node : Node) (s : AgentState) (memo : Memo) (r : Result (Unit {0}) × W)
      → Open s ⊎ (Final s × (next_node node s ≡ none))
      → After node (after_save runtime s memo r)
  after_save-After node s memo (ok _, w) h = h
  after_save-After node s memo (err e, w) h = tt

  run_tools-After :
      (s : AgentState) (memo : Memo) (w : W)
      → Reached runtime s0 memo0 w0 tools_node s memo w
      → Open s
      → After tools_node (run_tools runtime s memo w)
  unfolding run_tools after_batch tools_update
  run_tools-After s memo w reached open_state =
      let calls = calls_of_last s.messages in
      let (batch, gate, w1) = execute_tool_batch runtime.host calls (from_state s.gate) w in
      elim (Bool-cases batch.submitted) [
        | inl e ↦
            let (w', captured, clear) =
              execute_tool_batch-IsCleared runtime.host calls (from_state s.gate) w e in
            after_save-After _ _ _ _ (
              inr (
                (s, memo, w, reached, (e, refl, clear, w', captured)),
                unfold next_node in unfold route_after_tools in rw e refl,
              ))
        | inr e ↦ after_save-After _ _ _ _ (inl (rw e open_state))
      ]

  run_node-After :
      (node : Node) (s : AgentState) (memo : Memo) (w : W)
      → Reached runtime s0 memo0 w0 node s memo w
      → Open s
      → After node (run_node runtime node s memo w)
  unfolding run_node format_error
  run_node-After model_node s memo w reached open_state = call_model-After s memo w open_state
  run_node-After tools_node s memo w reached open_state =
      run_tools-After s memo w reached open_state
  run_node-After format_error_node s memo w reached open_state =
      after_save-After _ _ _ _ (inl open_state)

  abbrev Ends : Graph runtime → Type 0
  Ends (none, m, w) = Unit {0}
  Ends (some (err e), m, w) = Unit {0}
  Ends (some (ok s), m, w) = Ended s

  run_nodes-Ends :
      (fuel : ℕ) (node : Node) (s : AgentState) (memo : Memo) (w : W)
      → Reached runtime s0 memo0 w0 node s memo w
      → Open s
      → Ends (run_nodes runtime fuel node s memo w)
  unfolding run_nodes
  run_nodes-Ends zero node s memo w reached open_state = tt
  run_nodes-Ends (suc fuel) node s memo w reached open_state =
      after_node-cases runtime Ends node (run_nodes runtime fuel) (run_node runtime node s memo w)
        (λ e m w1 h. tt)
        (λ s1 m w1 h end.
          final s1 (subst (After node) h (run_node-After node s memo w reached open_state)))
        (λ s1 m w1 later h going. run_nodes-Ends fuel later s1 m w1 (followed reached h going) (
          still s1 later going
            (subst (After node) h (run_node-After node s memo w reached open_state))))
    where
      final : (s1 : AgentState) → Open s1 ⊎ (Final s1 × (next_node node s1 ≡ none)) → Ended s1
      final s1 (inl open_one) = inl open_one
      final s1 (inr (f, done)) = inr f

      still :
          (s1 : AgentState) (later : Node)
          → next_node node s1 ≡ some later
          → Open s1 ⊎ (Final s1 × (next_node node s1 ≡ none))
          → Open s1
      still s1 later going (inl open_one) = open_one
      still s1 later going (inr (f, end)) = absurd (some-none (sym going ∙ end))
        where
          some-none : some later ≢ none
          some-none e = cc

  -- When the graph of a run that was not submitted before ends in a submitted state, the gate in that
  -- state is the one that the batch of a tools node, which the run reached, returned as it submitted;
  -- that gate is cleared at the fingerprint of the workspace, captured after all calls of that batch
  -- but the submit calls.
  pub invoke_graph-Final :
      (final : AgentState)
      → (s0.exit_status == "Submitted") ≡ false
      → (invoke_graph runtime s0 memo0 w0).0 ≡ some (ok final)
      → final.exit_status ≡ "Submitted"
      → Final final
  unfolding invoke_graph
  invoke_graph-Final final open_state h submitted =
      elim (ends (invoke_graph runtime s0 memo0 w0)
        (unfold invoke_graph in
          run_nodes-Ends (recursion_limit runtime.max_steps) model_node s0 memo0 w0 begun
            open_state)
        h) [
          | inl open_one ↦ absurd (ground (arith, eq_iff final.exit_status "Submitted"))
          | inr f ↦ f
        ]
    where
      ends : (g : Graph runtime) → Ends g → g.0 ≡ some (ok final) → Ended final
      ends (none, m, w) e h = absurd (never h)
        where
          never : none ≢ some (ok final)
          never e = cc
      ends (some (err x), m, w) e h = absurd (never h)
        where
          never : some (err x) ≢ some (ok final)
          never e = cc
      ends (some (ok s1), m, w) e h = subst Ended (same h) e
        where
          same : some (ok s1) ≡ some (ok final) → s1 ≡ final
          same e = cc
