-- ===== src/Agent/Run/Terminates.antt =====
-- The graph ends within its recursion limit, and asks the model at most once for each step left.
use mini_code_agent_langgrap.Prelude.{
  ◌≡◌, refl, sym, ◌∙◌, ap, subst, ℕ, zero, suc, ◌+◌, ◌-◌, ◌*◌, ◌≤◌, true, false, ◌≢◌, ◌⊎◌, inl, inr,
  none, some, Result, ok, err, Exception, leb, arith, Bool-cases, Option-cases,
}
use mini_code_agent_langgrap.Agent.{
  AgentState, Memo, Message, Runtime, Outcome, Node, model_node, tools_node, format_error_node,
  call_model, after_answer, ask_model, run_tools, after_batch, after_save, tools_update,
  format_error, run_node, next_node, route_after_model, route_after_tools,
}
use mini_code_agent_langgrap.Verification.Gate.{VerificationGate}
use mini_code_agent_langgrap.Contracts.{ToolBatchOutcome}
use mini_code_agent_langgrap.Agent.Run.{Graph, after_node, run_nodes, recursion_limit, invoke_graph}

module _ {W : Type 0} (runtime : Runtime W) where
  -- The cases of what follows a node.
  pub after_node-cases :
      (P : Graph runtime → Type 0) (node : Node) (go : Node → AgentState → Memo → W → Graph runtime)
      (o : Outcome W)
      → ((e : Exception) (m : Memo) (w : W) → o ≡ (err e, m, w) → P (some (err e), m, w))
      → ((s : AgentState) (m : Memo) (w : W)
          → o ≡ (ok s, m, w)
          → next_node node s ≡ none
          → P (some (ok s), m, w))
      → ((s : AgentState) (m : Memo) (w : W) (later : Node)
          → o ≡ (ok s, m, w)
          → next_node node s ≡ some later
          → P (go later s m w))
      → P (after_node runtime node go o)
  after_node-cases P node go (err e, m, w) raised ended going = raised e m w refl
  after_node-cases P node go (ok s, m, w) raised ended going =
      elim (Option-cases (next_node node s)) [
        | inl e ↦ rw (e, after_node) (ended s m w refl e)
        | inr (later, e) ↦ rw (e, after_node) (going s m w later refl e)
      ]

  -- A model node stops at the step limit, and else makes one step, with one answer of the model.
  abbrev Answers : AgentState → Memo → Outcome W → Type 0
  Answers s memo (err e, m, w) = m.model_calls ≡ memo.model_calls
  Answers s memo (ok s', m, w) =
      ((s'.done ≡ true) × (m.model_calls ≡ memo.model_calls))
      ⊎ ((leb runtime.max_steps s.steps ≡ false)
          × (s'.steps ≡ s.steps + 1)
          × (m.model_calls ≡ memo.model_calls + 1))

  after_answer-Answers :
      (s : AgentState) (memo memo' : Memo) (r : Result Message × W)
      → memo'.model_calls ≡ memo.model_calls
      → leb runtime.max_steps s.steps ≡ false
      → Answers s memo (after_answer runtime s memo' r)
  unfolding after_answer
  after_answer-Answers s memo memo' (err e, w) same room = same
  after_answer-Answers s memo memo' (ok response, w) same room =
      inr (room, refl, ap (λ n. n + 1) same)

  call_model-Answers :
      (s : AgentState) (memo : Memo) (w : W) → Answers s memo (call_model runtime s memo w)
  unfolding call_model
  call_model-Answers s memo w = elim (Bool-cases (leb runtime.max_steps s.steps)) [
    | inl e ↦ rw e (inl (refl, refl))
    | inr e ↦ rw e (after_answer-Answers s memo _ (ask_model runtime s.messages w) refl e)
  ]

  -- The other nodes make no step.
  abbrev Keeps : AgentState → Memo → Outcome W → Type 0
  Keeps s memo (err e, m, w) = m.model_calls ≡ memo.model_calls
  Keeps s memo (ok s', m, w) = (s'.steps ≡ s.steps) × (m.model_calls ≡ memo.model_calls)

  after_save-Keeps :
      (s s' : AgentState) (memo m : Memo) (r : Result (Unit {0}) × W)
      → s'.steps ≡ s.steps
      → m.model_calls ≡ memo.model_calls
      → Keeps s memo (after_save runtime s' m r)
  after_save-Keeps s s' memo m (ok _, w) e f = (e, f)
  after_save-Keeps s s' memo m (err x, w) e f = f

  after_batch-Keeps :
      (s : AgentState) (memo : Memo) (b : ToolBatchOutcome × VerificationGate × W)
      → Keeps s memo (after_batch runtime s memo b)
  unfolding after_batch tools_update
  after_batch-Keeps s memo (batch, gate, w) = after_save-Keeps s _ memo _ _ refl refl

  run_tools-Keeps :
      (s : AgentState) (memo : Memo) (w : W) → Keeps s memo (run_tools runtime s memo w)
  unfolding run_tools
  run_tools-Keeps s memo w = after_batch-Keeps s memo _

  format_error-Keeps :
      (s : AgentState) (memo : Memo) (w : W) → Keeps s memo (format_error runtime s memo w)
  unfolding format_error
  format_error-Keeps s memo w = after_save-Keeps s _ memo _ _ refl refl

  -- The graph has ended, and the model has answered at most `k` times.
  abbrev Ends : ℕ → Memo → Graph runtime → Type 0
  Ends k memo (result, m, w) =
      ((r : Result AgentState) × (result ≡ some r)) × (m.model_calls ≤ memo.model_calls + k)

  -- A tools node, or a format error, is followed by a model node.
  other-Ends :
      (k fuel : ℕ)
      → ((s : AgentState) (memo : Memo) (w : W)
          → runtime.max_steps ≤ s.steps + k
          → Ends k memo (run_nodes runtime fuel model_node s memo w))
      → (node : Node)
      → ((s : AgentState) (memo : Memo) (w : W) → Keeps s memo (run_node runtime node s memo w))
      → ((s : AgentState) → (next_node node s ≡ none) ⊎ (next_node node s ≡ some model_node))
      → (s : AgentState) (memo : Memo) (w : W) → runtime.max_steps ≤ s.steps + k
      → Ends k memo (run_nodes runtime (suc fuel) node s memo w)
  unfolding run_nodes
  other-Ends k fuel ends node kept next s memo w room =
      after_node-cases (Ends k memo) node (run_nodes runtime fuel) (run_node runtime node s memo w)
        (λ e m w1 h.
          let same = subst (Keeps s memo) h (kept s memo w) in ((err e, refl), omega arith))
        (λ s1 m w1 h end.
          let (_, same) = subst (Keeps s memo) h (kept s memo w) in ((ok s1, refl), omega arith))
        (λ s1 m w1 later h going.
          let (steps, same) = subst (Keeps s memo) h (kept s memo w) in
          elim (next s1) [
            | inl none_left ↦ cc
            | inr model ↦
                let is_model : later ≡ model_node = some-eq (sym going ∙ model) in
                subst (λ n. Ends k memo (run_nodes runtime fuel n s1 m w1)) (sym is_model)
                  (let (r, few) = ends s1 m w1 (omega arith) in (r, omega arith))
          ])
    where
      some-eq : {a b : Node} → some a ≡ some b → a ≡ b
      some-eq e = cc

  tools-next :
      (s : AgentState)
      → (next_node tools_node s ≡ none) ⊎ (next_node tools_node s ≡ some model_node)
  unfolding next_node route_after_tools
  tools-next s = elim (Bool-cases s.done) [ inl e ↦ rw e (inl refl) | inr e ↦ rw e (inr refl) ]

  model-next :
      (s : AgentState) (later : Node)
      → next_node model_node s ≡ some later
      → (s.done ≡ false) × (later ≢ model_node)
  unfolding next_node route_after_model
  model-next s later h = ground arith

  -- The end after a model node.
  model-ended :
      (k : ℕ) (s s1 : AgentState) (memo m : Memo) (w1 : W)
      → runtime.max_steps ≤ s.steps + k
      → Answers s memo (ok s1, m, w1)
      → Ends k memo (some (ok s1), m, w1)
  model-ended k s s1 memo m w1 room (inl (done, same)) = ((ok s1, refl), omega arith)
  model-ended k s s1 memo m w1 room (inr (few, steps, same)) = ((ok s1, refl), ground arith)

  -- What is known of a run with one step less, two nodes later.
  abbrev Later : ℕ → ℕ → Type 0
  Later (suc j) (suc g) =
      (s : AgentState) (memo : Memo) (w : W)
      → runtime.max_steps ≤ s.steps + j
      → 2 * j + 1 ≤ g
      → Ends j memo (run_nodes runtime g model_node s memo w)
  Later _ _ = Unit {0}

  -- What follows a model node that goes on.
  model-going :
      (k fuel : ℕ) (s s1 : AgentState) (memo m : Memo) (w1 : W) (later : Node)
      → runtime.max_steps ≤ s.steps + k
      → 2 * k ≤ fuel
      → Later k fuel
      → next_node model_node s1 ≡ some later
      → Answers s memo (ok s1, m, w1)
      → Ends k memo (run_nodes runtime fuel later s1 m w1)
  model-going k fuel s s1 memo m w1 later room enough ends going (inl (done, same)) =
      let (open_state, other) = model-next s1 later going in absurd (ground arith)
  model-going zero fuel s s1 memo m w1 later room enough ends going (inr (few, steps, same)) =
      absurd (ground arith)
  model-going (suc j) zero s s1 memo m w1 later room enough ends going (inr (few, steps, same)) =
      absurd (omega arith)
  model-going (suc j) (suc g) s s1 memo m w1 tools_node room enough ends going
        (inr (few, steps, same)) =
      let (r, calls) =
        other-Ends j g (λ s memo w left. ends s memo w left (omega arith)) tools_node
          (λ s memo w. unfold run_node in run_tools-Keeps s memo w) tools-next s1 m w1
          (omega arith) in
      (r, omega arith)
  model-going (suc j) (suc g) s s1 memo m w1 format_error_node room enough ends going
        (inr (few, steps, same)) =
      let (r, calls) =
        other-Ends j g (λ s memo w left. ends s memo w left (omega arith)) format_error_node
          (λ s memo w. unfold run_node in format_error-Keeps s memo w)
          (λ s. unfold next_node in inr refl) s1 m w1 (omega arith) in
      (r, omega arith)
  model-going (suc j) (suc g) s s1 memo m w1 model_node room enough ends going
        (inr (few, steps, same)) =
      let (open_state, other) = model-next s1 model_node going in absurd (other refl)

  run_nodes-suc :
      (k fuel : ℕ)
      → Later k fuel
      → (s : AgentState) (memo : Memo) (w : W) → runtime.max_steps ≤ s.steps + k
      → 2 * k ≤ fuel
      → Ends k memo (run_nodes runtime (suc fuel) model_node s memo w)
  unfolding run_nodes run_node
  run_nodes-suc k fuel ends s memo w room enough =
      after_node-cases (Ends k memo) model_node (run_nodes runtime fuel)
        (call_model runtime s memo w)
        (λ e m w1 h.
          let same = subst (Answers s memo) h (call_model-Answers s memo w) in
          ((err e, refl), omega arith))
        (λ s1 m w1 h end.
          model-ended k s s1 memo m w1 room
            (subst (Answers s memo) h (call_model-Answers s memo w)))
        (λ s1 m w1 later h going.
          model-going k fuel s s1 memo m w1 later room enough ends going
            (subst (Answers s memo) h (call_model-Answers s memo w)))

  run_nodes-Ends :
      (k fuel : ℕ) (s : AgentState) (memo : Memo) (w : W)
      → runtime.max_steps ≤ s.steps + k
      → 2 * k + 1 ≤ fuel
      → Ends k memo (run_nodes runtime fuel model_node s memo w)
  run_nodes-Ends k zero s memo w room enough = absurd (omega arith)
  run_nodes-Ends zero (suc fuel) s memo w room enough =
      run_nodes-suc zero fuel tt s memo w room (omega arith)
  run_nodes-Ends (suc k) (suc zero) s memo w room enough =
      run_nodes-suc (suc k) zero tt s memo w room (omega arith)
  run_nodes-Ends (suc k) (suc (suc fuel)) s memo w room enough =
      run_nodes-suc (suc k) (suc fuel) (run_nodes-Ends k fuel) s memo w room (omega arith)

  -- The graph never hits its recursion limit: it ends with a state or an exception, and the model has
  -- answered at most once for each step that the initial state has left.
  pub invoke_graph-ends :
      (s : AgentState) (memo : Memo) (w : W)
      → let (result, memo', _) = invoke_graph runtime s memo w in
        ((r : Result AgentState) × (result ≡ some r))
        × (memo'.model_calls ≤ memo.model_calls + (runtime.max_steps - s.steps))
  unfolding invoke_graph recursion_limit
  invoke_graph-ends s memo w =
      run_nodes-Ends (runtime.max_steps - s.steps) (recursion_limit runtime.max_steps) s memo w
        (omega arith) (ground arith)
