-- ===== src/Lib.antt =====
-- A verification library of afmail: an agent-first mail client that keeps mail in files, takes new
-- mail from IMAP or from a Cloudflare spool, and queues every remote effect for approval.
--
-- Modelled are three parts that must survive a crash at any point, and two that answer questions, about
-- case references and about readiness.
--
-- The Cloudflare consumer (src/sources/cloudflare). A pull prepares a task for each new mail, imports
-- the mail, and then cleans the spool; `dispatch` gives waiting tasks to a handler in a batch, and a
-- marker file says that the batch is done. The journal of receipts, tasks and the active batch is one
-- file, replaced at each save.
--   Consumer: journal.rs. `Journal` and its methods load, prune, save, prepare, withdraw, imported,
--   cleaned; a `JournalStore` pairs the journal in memory with its file.
--   Consumer/Batches: apply_completed of journal.rs; record_completed, drop_unavailable, and of
--   dispatch in consumer.rs the choice of the batch (choose_batch), the attempt recorded before the
--   handler (start_attempt) and its failure (record_failure).
--   Consumer/Valid, Promise, Sound and Reach: validate_active, what it promises, and the steps of the
--   whole consumer.
--   Consumer/Tasks and Prune: the life of one task and of one receipt.
--
-- The push queue (src/push_queue, src/types/push.rs). An item is a file with the state of each of its
-- steps. The loop marks a step, writes the item, runs the step on the remote side, and writes what
-- came of it. An uncertain outcome is never tried again without evidence.
--   Push/Item: types/push.rs, ActionStep of config/actions.rs, step_label of preview.rs.
--   Push/Session: io.rs's write of an item, and the session that a run threads through.
--   Push/Steps: execute/step_state.rs; Marks says which states a mark touches.
--   Push/Execute: execute_tracked_steps of execute.rs with recover_remote_outcome_unknown_step; Frame
--   carries a relation through the run of a step, Durable, Blocked and Complete use it.
--   Push/Perform: the executors execute_message_step and execute_outbound_step of execute.rs (below
--   it, Executors), with execute_move and execute_add_flags; MoveProof is recover_remote_outcome_unknown_move.
--   Push/Mail has their data.
--   Push/Queue: of mod.rs and io.rs, what puts items into the queue directory and removes
--   them; Queue/Actions has the message actions and the guard before them.
--   Push/Labels and Planning: the steps that an item resolves to, its labels and plan_item of mod.rs.
--   Push/Plan and Build: the order of the items and the plan of a run, of plan.rs.
--   Push/Finalize: finalize_pushed_item of mod.rs, the local stages after the remote steps.
--   Push/Run: the push of one item and its audit; Run/Loop is the loop of push_with_progress with its
--   counts, and Run/Command the command, which offers the plan or runs it.
--   Push/Pending: store/push_state.rs, the pushes that a message waits for; Pending/Waits has how they
--   change.
--   Push/Recovery: recovery.rs. Checks has what the checks of an uncertain step establish, and
--   Recovery/Confirm the recovery of a send and of an append under a confirmed plan; Confirm/Evidence
--   has what the searches of the mailboxes gave, and Sends and Appends what each recovery writes.
--
-- Idempotency keys (src/store/idempotency.rs). A caller names a request by an id, so that it can ask
-- again after a failure.
--   Idempotency: run_idempotent_request_with_precheck, over the directory of records; Once and Replay.
--   The check, the operation, the clock, the failed writes, the fingerprint of the JSON (BLAKE3) and the
--   test of a path segment (a library's) are arguments.
--
-- Case references (src/store/refs.rs). An index says which cases list a message.
--   References: CaseIndex, with the folders of the workspace as arguments; Scan has its entries, and
--   Build what the index answers. A status is quoted in an error as it stands, without escapes.
--
-- Readiness (src/store/readiness.rs). The report says what the configuration lacks.
--   Readiness: readiness and RouteReadiness, with what is read of the configuration; Complete has what
--   an empty list of missing keys promises. The special-use mailboxes are left out.
--
-- Prelude has numbers, maps (a BTreeMap is a list of entries in the order of their keys), results
-- (src/error.rs) and 64-bit integers. Every loop is recursion on a list, so no fuel is needed. The
-- clock, the outcome of each write, what the workspace holds of a message and the digest of task keys
-- are arguments; of the digest the proofs use that it is 64 hexadecimal digits (BLAKE3). The remote
-- side, the views of messages and the evidence for recovery are the record `Collaborators`; what the
-- executors read is the record `Services`, and what they must not repeat is the record `Effects`. The
-- loop has the executor of a step as a parameter, as it has in the source. JSON, hints, progress
-- events, locks and processes are left out: operations run one at a time, as they do under the
-- workspace lock.
pub mod Prelude
pub mod Consumer
pub mod Push
pub mod Idempotency
pub mod References
pub mod Readiness
