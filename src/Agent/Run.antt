-- ===== src/Agent/Run.antt =====
-- A run of the agent's graph. One node runs after the other, up to the recursion limit.
pub mod Terminates
pub mod Cleared
pub mod Paired
use mini_code_agent_langgrap.Prelude.{
  ℕ, zero, suc, ◌+◌, ◌*◌, List, [], ◌∷◌, ◌++◌, Option, none, some, String, Bool, true, false,
  Result, ok, err, Exception, concat, leb, if◌then◌else◌,
}
use mini_code_agent_langgrap.Verification.Gate.{VerificationGate, create, to_state}
use mini_code_agent_langgrap.Agent.{
  AgentState, Memo, Runtime, Outcome, Event, error_event, model_event, Node, model_node, run_node,
  next_node, checkpoint_of, after_save,
}

-- `max(20, self.max_steps * 4 + 10)`
unfoldable pub recursion_limit : ℕ → ℕ
recursion_limit max_steps = let n = max_steps * 4 + 10 in if leb n 20 then 20 else n

module _ {W : Type 0} (runtime : Runtime W) where
  abbrev pub Graph : Type 0
  Graph = Option (Result AgentState) × Memo × W

  -- What follows a node: the next one, or the end.
  abbrev pub after_node : Node → (Node → AgentState → Memo → W → Graph) → Outcome W → Graph
  after_node node go (err e, memo, w) = (some (err e), memo, w)
  after_node node go (ok s, memo, w) = elim (next_node node s) [
    | none ↦ (some (ok s), memo, w)
    | some later ↦ go later s memo w
  ]

  -- Up to `fuel` nodes; `none` where the limit is hit, which langgraph raises as an exception.
  unfoldable pub run_nodes : ℕ → Node → AgentState → Memo → W → Graph
  unfolding run_node next_node
  run_nodes zero node s memo w = (none, memo, w)
  run_nodes (suc fuel) node s memo w =
      after_node node (run_nodes fuel) (run_node runtime node s memo w)

  -- `self.graph.invoke(initial_state, ...)`
  unfoldable pub invoke_graph : AgentState → Memo → W → Graph
  unfolding run_nodes recursion_limit
  invoke_graph s memo w = run_nodes (recursion_limit runtime.max_steps) model_node s memo w

-- `_model_step_count`
unfoldable pub model_step_count : List Event → ℕ
model_step_count [] = 0
model_step_count (model_event step attempt response ∷ rest) = suc (model_step_count rest)
model_step_count (_ ∷ rest) = model_step_count rest

abbrev or_else {ℓ} : {A : Type ℓ} → Option A → A → A
or_else none a = a
or_else (some b) a = b

abbrev pub recursion_error : Exception
recursion_error = record {
  name = "GraphRecursionError";
  text = "Recursion limit reached without hitting a stop condition.";
}

module _ {W : Type 0} (runtime : Runtime W) where
  -- The state after an exception: the last safe one, with the last gate.
  unfoldable pub failed_state : AgentState → String → Memo → Exception → AgentState
  unfolding model_step_count
  failed_state initial fingerprint memo e = record (or_else memo.resume_state initial) {
    steps = model_step_count memo.event_log;
    exit_status = concat ("Error:" ∷ e.name ∷ []);
    gate = to_state (or_else memo.last_gate (create fingerprint true));
    events = memo.event_log;
  }

  -- `except Exception as exc`
  unfoldable pub recover : AgentState → String → Exception → Memo → W → Outcome W
  unfolding failed_state
  recover initial fingerprint e memo w =
      let logged : Memo = record memo {
        event_log = memo.event_log ++ (error_event (model_step_count memo.event_log) e ∷ []);
      } in
      let final : AgentState = failed_state initial fingerprint logged e in
      after_save runtime final logged
        (runtime.save (checkpoint_of runtime final.exit_status final.steps final) w)

  unfoldable pub settle_graph :
      AgentState → String → Option (Result AgentState) × Memo × W → Outcome W
  unfolding recover
  settle_graph initial fingerprint (some (ok s), memo, w) = (ok s, memo, w)
  settle_graph initial fingerprint (some (err e), memo, w) = recover initial fingerprint e memo w
  settle_graph initial fingerprint (none, memo, w) =
      recover initial fingerprint recursion_error memo w

  unfoldable pub after_first_save : AgentState → String → Memo → Result (Unit {0}) × W → Outcome W
  unfolding settle_graph invoke_graph
  after_first_save initial fingerprint memo (err e, w) = (err e, memo, w)
  after_first_save initial fingerprint memo (ok _, w) =
      settle_graph initial fingerprint (invoke_graph runtime initial memo w)

  -- `run`, from the initial state to the final one.
  unfoldable pub run : AgentState → String → Memo → W → Outcome W
  unfolding after_first_save
  run initial fingerprint memo w =
      after_first_save initial fingerprint (record memo { resume_state = some initial })
        (runtime.save (checkpoint_of runtime "Running" initial.steps initial) w)
