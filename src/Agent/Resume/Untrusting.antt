-- ===== src/Agent/Resume/Untrusting.antt =====
-- A resumed run trusts nothing that was verified before.
use mini_code_agent_langgrap.Prelude.{
  ◌≡◌, ◌≢◌, refl, ap, subst, Bool, true, false, List, [], ◌∷◌, ◌++◌, Option, none, some, String,
  pos, ok, is_empty, arith, Bool-cases, inl, inr, if◌then◌else◌,
}
use mini_code_agent_langgrap.Prelude.Sorting.{eq_comm}
use mini_code_agent_langgrap.Prelude.Results.{>>=-eq-ok, raise_if-eq-ok}
use mini_code_agent_langgrap.Prelude.Json.{int, Fields, get, get_default}
use mini_code_agent_langgrap.Prelude.Library.{Library}
use mini_code_agent_langgrap.Receipt.{to_int}
use mini_code_agent_langgrap.Contracts.{ToolResult}
use mini_code_agent_langgrap.Verification.Calls.{demand_verification, lose_workspace}
use mini_code_agent_langgrap.Verification.Gate.{
  VerificationGate, sync, to_state, from_state, submission_error, verification_required,
}
use mini_code_agent_langgrap.Agent.{
  AgentState, Message, human_message, last_message, calls_of, calls_of_last,
}
use mini_code_agent_langgrap.Agent.Resume.{
  Session, resume_notice, value_error_if, list_of_messages, has_unexecuted, is_truthy, is_notice,
  with_notice, saved_gate, saved_task, saved_messages, restore_state,
}

-- The gates that are reached from one without a test being recorded: the steps of a batch other than
-- `record_test`.
pub data Untested (gate : VerificationGate) : VerificationGate → Type 0 where
  same : Untested gate gate
  synced :
      {g : VerificationGate} (fingerprint : String)
      → Untested gate g
      → Untested gate (sync g fingerprint)
  refused_at :
      {g : VerificationGate} (fingerprint : String)
      → Untested gate g
      → Untested gate (submission_error g fingerprint).1
  demanded :
      {g : VerificationGate} (name : String) (result : ToolResult)
      → Untested gate g
      → Untested gate (demand_verification name result g)
  lost : {g : VerificationGate} → Untested gate g → Untested gate (lose_workspace g)

-- A state that can continue but holds no verdict of its own.
pub record IsUntrusting (s : AgentState) (current_fingerprint : String) : Type 0 where
  pub running : s.done ≡ false
  pub unsubmitted : s.exit_status ≡ ""
  pub executed : has_unexecuted (calls_of_last s.messages) ≡ false
  pub current : s.gate.current_fingerprint ≡ current_fingerprint
  pub based : is_empty s.gate.baseline_fingerprint ≡ false
  pub refused :
      (fingerprint : String)
      → is_empty fingerprint ≡ false
      → (submission_error (from_state s.gate) fingerprint).0 ≡ some verification_required
  pub refused_until :
      (gate : VerificationGate) (fingerprint : String)
      → Untested (from_state s.gate) gate
      → is_empty fingerprint ≡ false
      → (submission_error gate fingerprint).0 ≢ none

last_message-snoc :
    (messages : List Message) (m : Message) → last_message (messages ++ (m ∷ [])) ≡ some m
last_message-snoc [] m = refl
last_message-snoc (x ∷ []) m = refl
last_message-snoc (x ∷ y ∷ rest) m = last_message-snoc (y ∷ rest) m

with_notice-executed :
    (messages : List Message)
    → has_unexecuted (calls_of_last messages) ≡ false
    → has_unexecuted (calls_of_last (with_notice messages)) ≡ false
unfolding with_notice
with_notice-executed messages h =
    let last = last_message-snoc messages (human_message resume_notice) in
    elim (Bool-cases (is_notice (last_message messages))) [
      | inl e ↦ rw e h
      | inr e ↦ rw e (ap after last)
    ]
  where
    after : Option Message → Bool
    after found = has_unexecuted (elim found [ none ↦ [] | some m ↦ calls_of m ])

saved_messages-executed :
    (session : Session) (checkpoint : Fields) (messages : List Message)
    → saved_messages session checkpoint ≡ ok messages
    → has_unexecuted (calls_of_last messages) ≡ false
unfolding saved_messages
saved_messages-executed session checkpoint messages h =
    let (raw, _, h1) = >>=-eq-ok (list_of_messages (get "messages" checkpoint)) _ h in
    let (restored, _, h2) = >>=-eq-ok (session.messages_of raw) _ h1 in
    let (_, executed, h3) =
      >>=-eq-ok (value_error_if (has_unexecuted (calls_of_last restored)) _) _ h2 in
    subst (λ m. has_unexecuted (calls_of_last m) ≡ false) (ok-eq h3)
      (with_notice-executed restored (raise_if-eq-ok _ _ _ executed))
  where
    ok-eq : {a b : List Message} → ok a ≡ ok b → a ≡ b
    ok-eq e = cc

saved_gate-refused :
    (lib : Library) (checkpoint : Fields) (current fingerprint : String)
    → is_empty fingerprint ≡ false
    → (submission_error
        (from_state (to_state (sync (saved_gate lib checkpoint) current)))
        fingerprint).0
      ≡ some verification_required
unfolding submission_error from_state to_state sync saved_gate
saved_gate-refused lib checkpoint current fingerprint nonempty =
    let swap = eq_comm "" fingerprint in ground arith

-- A gate that asks for verification and has no verified fingerprint.
abbrev Unverified : VerificationGate → Type 0
Unverified gate = (gate.verified_fingerprint ≡ "") × (gate.require_verification ≡ true)

Untested-Unverified : {gate g : VerificationGate} → Untested gate g → Unverified gate → Unverified g
unfolding sync submission_error demand_verification lose_workspace
Untested-Unverified same h = h
Untested-Unverified (synced fingerprint u) h = Untested-Unverified u h
Untested-Unverified (refused_at fingerprint u) h = Untested-Unverified u h
Untested-Unverified (demanded name result u) h =
    let before = Untested-Unverified u h in (ground arith, ground arith)
Untested-Unverified (lost u) h = (refl, (Untested-Unverified u h).1)

Unverified-refused :
    (gate : VerificationGate) (fingerprint : String)
    → Unverified gate
    → is_empty fingerprint ≡ false
    → (submission_error gate fingerprint).0 ≢ none
unfolding submission_error sync
Unverified-refused gate fingerprint (verified, required) nonempty e =
    let swap = eq_comm "" fingerprint in ground arith

saved_gate-Unverified :
    (lib : Library) (checkpoint : Fields) (current : String)
    → Unverified (from_state (to_state (sync (saved_gate lib checkpoint) current)))
unfolding from_state to_state sync saved_gate
saved_gate-Unverified lib checkpoint current = (refl, refl)

-- A checkpoint that is restored gives an untrusting state: not done, not submitted, with no call left
-- to execute, at the current fingerprint, and with a gate that refuses a submission at every
-- fingerprint that is not empty: at once because verification is required, and with some error at
-- every gate that it becomes by steps of a batch other than the recording of a test.
pub restore_state-IsUntrusting :
    (session : Session) (checkpoint : Fields) (task current_fingerprint : String) (s : AgentState)
    (saved : String)
    → restore_state session checkpoint task current_fingerprint ≡ ok (s, saved)
    → IsUntrusting s current_fingerprint
unfolding restore_state
restore_state-IsUntrusting session checkpoint task current_fingerprint s saved h =
    let (_, _, h1) = >>=-eq-ok (saved_task session checkpoint task) _ h in
    let (messages, read, h2) = >>=-eq-ok (saved_messages session checkpoint) _ h1 in
    let (_, _, h3) =
      >>=-eq-ok
        (if is_truthy (get "undo_journal" checkpoint) then session.load_undo checkpoint else ok tt)
        _ h2 in
    let (_, based, h4) =
      >>=-eq-ok
        (value_error_if (is_empty (saved_gate session.library checkpoint).baseline_fingerprint) _) _
        h3 in
    let (steps, _, h5) =
      >>=-eq-ok (to_int session.library (get_default "steps" (int (pos 0)) checkpoint)) _ h4 in
    subst (λ x. IsUntrusting x current_fingerprint) (ap (λ p. p.0) (ok-eq h5))
      (record {
        running = refl;
        unsubmitted = refl;
        executed = saved_messages-executed session checkpoint messages read;
        current = unfold to_state in unfold sync in refl;
        based = unfold to_state in unfold sync in raise_if-eq-ok _ _ _ based;
        refused = saved_gate-refused session.library checkpoint current_fingerprint;
        refused_until = λ gate fingerprint u. Unverified-refused gate fingerprint (
            Untested-Unverified u
              (saved_gate-Unverified session.library checkpoint current_fingerprint));
      })
  where
    ok-eq : {a b : AgentState × String} → ok a ≡ ok b → a ≡ b
    ok-eq e = cc
