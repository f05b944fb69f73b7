-- ===== src/Lib.antt =====
-- Verification of Henk, a personal agent reached over a messenger.
--
-- The agent answers its owner, triages alerts and delivers reminders. Whatever tool the agent calls
-- passes the approval gate, whatever it sends passes the channel, and the reminder scheduler sends
-- what is due. Alerts come in by the intake; the coordinator debounces them, lets the ledger hold
-- those of a maintenance window, has the pipeline classify the rest, and submits a turn or a
-- checkpoint marker to the agent core; the release submits what was held once its window is over.
--
-- Parts and files.
--   Base: shared names, Boolean tests on the native numbers, lists and predicates on them.
--   Channel: the outcome of a send, of henk/channel/base.py; Channel/Split: its `split_message`.
--   Store/Content: content rejections of henk/store/errors.py, trimming and the length limit.
--   Store/Inbox: `SqliteInboxStore` of henk/store/inbox.py over its table as a list of rows; Drain and
--     Retention hold the proofs.
--   Store/Memory: `add`, `delete_containing` and `count` of `MemoryStore` of henk/store/memory.py;
--     Capped and Forgotten hold the proofs.
--   Reminders: henk/store/reminders.py and henk/reminders/scheduler.py. Row and Table model the
--     `reminders` table as a list of rows in id order and its SQL statements as list functions,
--     Repository the methods of `ReminderStore`, World, PreWork, Compose and Scheduler one tick of
--     `ReminderScheduler`. The other modules below Reminders hold proofs.
--   Tools: `Tool` and `ToolRegistry` of henk/tools/base.py; Tools/Registered holds the proofs.
--   Gate: `ApprovalGate` of henk/gate/approval.py. State is its data, Reply the routing of replies
--     (`classify`, `classify_reaction`, `deliver`, `deliver_reaction`, `_answer`), Authorize the
--     flow of `authorize` and `_prompt_and_wait`, its part before the prompt in
--     Authorize/Begin. Permission and Decision (`policy`) hold the permission model, written without
--     the tests of the code; Conforms, FirstAnswer, Policy, Taint and Receipts hold the proofs.
--   Events: the values of henk/events/types.py; Events/Debounce and Events/Pipeline: `Debouncer` and
--     `EventPipeline` of henk/events/pipeline.py; Events/Intake: `EventIntake` of
--     henk/events/intake.py, with an abstract machine of what it promises (Promise). The other
--     modules below them hold runs and proofs.
--   Store/Handoffs: `HandoffStore` of henk/store/handoffs.py; Newest, Retained, Found, Document and
--     References hold the proofs.
--   Holds: the rows of henk/store/holds.py; Table its `HoldStore`, Groups the grouping of a release
--     and Ledger the `HoldLedger` of henk/events/holds.py. The modules below them hold the proofs.
--   Coordinator: `EventCoordinator` of henk/events/coordinator.py, its dispatch of a batch and its
--     submission of a release here, its loop with the pump as a step relation in Stepping; Release:
--     `HoldReleaser` of henk/events/release.py. Accounts, CatchUp and the modules below Release hold
--     proofs.
--   Agent: Ending is `classify_ending` of henk/agent/ending.py (Ending/Meaning says what its endings
--     mean, Ending/Delivered holds the proofs), Core the `AgentCore` of
--     henk/agent/core.py, with its data in Core/Session; Core/Accounting, Core/Durable and the
--     modules below them hold proofs.
--
-- Modelling. Instants and durations are naturals of one fixed unit, and a comparison of a
-- difference is written as a comparison of a sum. Texts are lists of code points. A stateful method
-- takes the state and gives the new one with its result. Where the code suspends (a send of the
-- scheduler, the prompt, the wait and the edit of the gate) the model takes the outcome and a list
-- of what other tasks do meanwhile, so a theorem holds for all of them; the loop of the coordinator
-- is a relation of steps in any order. There are no floats: of the delay of the intake's backoff
-- only the overflow of its float is modelled, not its rounding. What a service answers, and whether
-- a write fails, is data of a call. The loops run over lists, but for that of `split_message`,
-- whose fuel is the length of the text and which takes a code point each round, and for the digits
-- of a number, whose fuel is above it.
--
-- Not modelled: failures of SQLite where no flag says so and of the gate's audit recorder, logging,
-- cancellation of a waiting turn, the endless loops around a tick and around the queue of turns,
-- the HTTP transport of the intake, the model's session, and the text of prompts and of what is
-- prefixed to a turn. The rendering of instants, the identity of an event, the matching of a
-- pattern and the lower case of a text are parameters. `EventPipeline.rehydrate` and the parts of
-- the program that no file names are not modelled.

pub mod Base
pub mod Channel
pub mod Store
pub mod Reminders
pub mod Tools
pub mod Gate
pub mod Events
pub mod Holds
pub mod Coordinator
pub mod Agent
