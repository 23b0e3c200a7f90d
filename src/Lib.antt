-- ===== src/Lib.antt =====
-- A coding agent that lets a model edit a Git workspace through tools, holds back its submission
-- until the user's checks have passed on the workspace as it is, and can keep the edits in a
-- transaction that is prepared, receipted and committed later; and the parts of its memory that
-- decide what a memory may claim. The model is a shallow embedding of the Python code.
--
-- Parts and files:
-- - Checks (src/mini_code_agent/checks.py, with truncate_text of utils.py in Utils): Checks/Normalize
--   is VerificationCheck and normalize_verification_checks; Checks/Matrix is run_verification_matrix,
--   a loop over the checks that threads a world through the capture and the runner.
-- - Verification (src/mini_code_agent/verification.py): Gate is VerificationGate, Capture is
--   capture_workspace_fingerprint, Calls the tests and results of single calls, and Batch is
--   execute_tool_batch. The executor, the capture and the undo callback are the record Host.
-- - Contracts and Observation (src/mini_code_agent/contracts.py): results, and what the model is told.
-- - Receipt (src/mini_code_agent/receipt.py): issue_receipt as receipt_payload and seal,
--   load_receipt and validate_receipt. Manifest is the dict that the store saves.
-- - Workspace (src/mini_code_agent/workspace.py): WorkspaceSnapshot's fingerprint and diff.
-- - Transaction (src/mini_code_agent/transaction.py): Store is the durable state, load and save;
--   Create, Prepare and Commit hold the operations of TransactionStore. An operation is a function of
--   the world that returns a value or an exception and the world it leaves in both cases. Git, the
--   scan, the clock and failing writes are the record Env. Admission, Rules and Reads hold proofs.
-- - Agent (src/mini_code_agent/agent.py, with limit_model_tool_calls of context.py): the state and the
--   nodes of MiniCodeAgent's graph; Run is graph.invoke and what run does around it, Resume is
--   _restore_state and the initial state. The model, the executor, compact_messages and the write of
--   a checkpoint are the record Runtime.
-- - Undo (src/mini_code_agent/trajectory.py): _undo_records over the contents of files; Undo/Journal
--   is the validation of the records and the signed journal. Undo/Restores, Undo/DryRun and
--   Undo/Guards hold proofs.
-- - Conversation (src/mini_code_agent/conversation_ledger.py): Ledger is
--   AuthenticatedConversationLedger, over the JSON values of a file's lines.
-- - Continuity (src/memory_core/continuity.py): Retention and Retention/Plan are
--   plan_long_term_retention, and Recall is select_continuity_context. The operations on floats are
--   the record Floats; Ids holds lemmas.
-- - Adapter (src/mini_code_agent/transaction_adapter.py): the access log of TransactionExecutor.
-- - Mutations (src/memory_core/mutations.py): schemas, mutations and MutationLedger.append.
-- - Lifecycle (src/memory_core/lifecycle.py): select_retirements.
-- - Authority (src/mini_code_agent/memory_models.py): validate_authority and
--   validate_derived_authority.
-- - Prelude: shared names, Python's str and int, exceptions as results, and JSON values.
-- - Tests: runs of the models and the theorems at concrete inputs.
--
-- The batch runs under the gate, whose verdict and fingerprint end in the trajectory; prepare reads
-- them there, issues the receipt and writes the manifest; commit trusts nothing but the manifest and
-- the authenticated receipt.
--
-- Bounds: the loops of the source are over lists and are structural recursion. The one fuel is the
-- agent's graph, which runs as many nodes as the recursion limit that the source passes,
-- max(20, 4 * max_steps + 10); a run needs at most two nodes for each step and one more.
-- Python's integers are natural numbers where a guard refuses negative ones, else integers. Digests,
-- canonical JSON and the parsers of Python's library are the record Library. About it nothing is
-- assumed but, where a theorem says so, the length of a keyed digest, and that a digest is no empty
-- text.
--
-- Not modelled: file I/O, permissions, symbolic links, locks and subprocesses, the scan of the
-- workspace, the memory database, scores in floating point, the command line and the model client.
pub mod Prelude
pub mod Utils
pub mod Checks
pub mod Contracts
pub mod Verification
pub mod Tests
pub mod Manifest
pub mod Receipt
pub mod Workspace
pub mod Transaction
pub mod Mutations
pub mod Observation
pub mod Authority
pub mod Adapter
pub mod Lifecycle
pub mod Conversation
pub mod Undo
pub mod Agent
pub mod Continuity
