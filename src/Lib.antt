-- ===== src/Lib.antt =====
-- Verification library of the OpenMA common package (TypeScript).
--
-- The package is what the OpenMA clients share: a wire protocol with a session kernel, an
-- orchestrator that decides which turn of a session runs next, event models with the projections that
-- read them, fork support of agents, and telemetry. The library models the parts whose behaviour is
-- their own logic. State is a record, a method a function from the state and its arguments to the new
-- state and its result, an error a value.
--
-- SessionKernel (src/session-kernel/index.ts). Wire has the commands and host events with their
-- decoders; Lifecycle has the lifecycle store of one session, `reduce_session_lifecycle` with
-- `settle`.
--
-- SessionOrchestrator (src/session-orchestrator/index.ts). The class SessionOrchestrator: active
-- turn, queue, steering turns, pending restart and disposal. Calls has its methods as calls, whose
-- sequences the theorems quantify over. Inheritance has `sessionInheritance`.
--
-- WorkItems (src/session-events/openma.ts). The work-item events of a session; Registry has the
-- reduction of all events, Projector the incremental form that a client feeds one event at a time.
-- Its order and its reduction are those of Registry, which is what its main theorem compares.
--
-- EventVocabulary (src/session-events/openma.ts). The published event types and the validator that
-- every consumer applies; work items are a part of that vocabulary.
--
-- PendingActions (src/session-events/pending-actions.ts, `eventThreadId` of
-- src/session-events/managed.ts). The tool calls that a managed session waits for.
--
-- AcpFork (src/acp-fork/index.ts). What an agent's initialize answer says of forking; fork points.
--
-- ComposerDrafts (src/chat-ui/composer-drafts.ts). Unsent texts by scope over the browser's storage.
--
-- DaemonConnection (src/local-runtime/daemon-connection.ts). Connecting, retrying with back-off and
-- stopping, by the callbacks of sockets and timers.
--
-- DaemonHost (src/local-runtime/daemon-host.ts). The class DaemonHost, which owns a connection and a
-- session manager: starting, stopping after a drain or by force, and the one promise of the stop.
--
-- ManagedSessionHost (src/local-runtime/session-host.ts, checkpoint.ts). The class
-- ManagedAgentsSessionHost, which runs turns in the sessions of agents and fences them by the
-- generations of a checkpoint store. Each method is cut at its awaits: Sessions, Starts, Prompts,
-- Steering, Disposal and Drains have the parts, Steps the calls and what goes on behind an await; a
-- run is a list of these steps in any order. What stands between the end of a helper that is awaited
-- and its caller is one step. The store of session objects is explicit, since a call may go on with
-- an object that the host has already let go. The clock does not run backwards. A round of the loop
-- of a drain is a step, so that the loop needs no fuel.
--
-- SessionSpans (src/telemetry/session-spans.ts). The spans of a session and of its turns and tools.
--
-- Traceparent (src/telemetry/traceparent.ts). The print and the parse of the W3C traceparent.
--
-- SemanticRecovery (src/managed-runtime/semantic-recovery.ts). The prompt that an agent gets when its
-- own state is lost: which events of the history become lines, and how the lines and the request are
-- cut to a number of characters (Prompt).
--
-- AgentUi (src/agent-ui/index.ts). The state of a view of one session. Records has the projection of
-- work items (by WorkItems.Registry), Plans that of plans, Requests those of callbacks and outcomes;
-- Messages, Thoughts and Tools what an event does to the items of a turn; Reducer the reduction of an
-- event, Replay that of a list in order; Store the store with its listeners and the subscribers of a
-- turn's stream; Sessions the stores of a host and the replay of a persisted log. `Date.parse` and a
-- log's decoder are parameters. The loop for a free id of a message runs on as many rounds as the turn
-- has items, which is enough, since each round that goes on has found another item.
--
-- Common has what the modules share: Boolean tests, texts and their decisions, texts as lists of UTF-16
-- code units (Units) with the print of a number (Decimal), Map and Set of JavaScript as lists in the
-- order of first insertion (Maps, Keys), JSON values, and a stable sort.
--
-- Conventions. A number that the code counts or compares by size is a natural number; a JSON number
-- is one, or the text that prints it. A text that the code only compares is a String; one that it
-- measures or takes apart is its code units, and an id of the first kind that becomes one of the second
-- is taken to be in the basic plane. A property that the code may leave out is an option; where a
-- spread tells an assigned undefined from no property, it is a slot. Array.prototype.sort is a stable
-- insertion sort. The keys of an object are taken to be no names that every JavaScript object has, such
-- as "constructor". All recursion is structural; the only loops on fuel are the one for a free id of a
-- message and the print of a number, whose fuel, the successor of the number, covers its digits.
--
-- Not modelled: code that is input and output only (processes, sockets, files, HTTP), the views of
-- React, third-party libraries, the build output in dist, the adapters between agents' protocols and
-- these events; and, of the package's own logic, the projections of managed and ACP events, and the
-- outer adapters of the daemon.
mod Common
pub mod AcpFork
pub mod AgentUi
pub mod ComposerDrafts
pub mod DaemonConnection
pub mod DaemonHost
pub mod ManagedSessionHost
pub mod EventVocabulary
pub mod PendingActions
pub mod SessionKernel
pub mod SessionOrchestrator
pub mod SessionSpans
pub mod SemanticRecovery
pub mod Traceparent
pub mod WorkItems
