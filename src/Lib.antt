-- ===== src/Lib.antt =====
-- The runtime of agent sessions: the Central service that stores sessions, finds workers for them,
-- and fans tool requests out to devices.
--
-- A client's request reaches a manager of src/central/managers, which reads records from the storage,
-- decides, appends events to the session's log, writes records back and returns what the controller
-- publishes. Workers report by heartbeat; a worker that is closed or expires takes its sessions with
-- it. A session gets a worker by a lease; a pause captures a snapshot that a later assignment restores.
-- A group of calls to devices settles when every member is done, and its aggregate is then delivered.
--
-- Where the parts are modelled:
--   Model        shared/models: records and enumerations. Field and case names are those of the
--                source in snake_case; a case that two types share has its type's word in front
--                (member_completed, open_group).
--   World        the state that an operation runs in. World.State.Store has one table for each
--                directory of src/central/storage/local-file-storage.ts; World.State.Host has the
--                clock, crypto, JSON.parse and the event transport; World.Action has the monad of state
--                and exceptions; World.Retry has the loops around conditional writes, World.Contend one
--                such write.
--   Storage      src/central/storage/local-file-storage.ts: Storage.Records has the reads and plain
--                writes, Storage.Claims the idempotent creations and the compare-and-set writes.
--                Proofs are in Storage.Contention; Storage.Versioned has what tasks keep that replace
--                records by compare-and-set, and Storage.Families its two kinds of record.
--   Persistence  src/central/persistence: planCapture, planRestore, recordCapture as plan_capture,
--                plan_restore, record_capture, for both storage classes.
--   Worker       src/central/managers/worker: Worker.Selector (select), Worker.Lease (assign,
--                assertCurrent), Worker.Manager (register, heartbeat, drain, close, expireWorkers,
--                expire, awaitFreshReport, releaseSessionLease, terminate) and Worker.Manager.Loss
--                (failSessionForWorkerLoss). Proofs are in Worker.Selector.Fitness,
--                Worker.Selector.Choice, Worker.Lost and Worker.Termination.
--   Session      src/central/managers/session: EventLog, Lifecycle, Assignment, Start, Pause and
--                Manager for the files of these names. Proofs are in Session.Log, Session.Kept,
--                Session.KeptByAll, Session.Queued and Session.Turns.
--   Fanout       src/central/managers/delegation/fanout-manager.ts: openGroup is open_group_for,
--                attachMemberCall, recordStartupFailure, recordOutcome and markDelivered are in
--                Fanout.Rounds, aggregate is in Fanout.Aggregate. Proofs are in the other modules
--                below Fanout.
--   Admission    src/central/managers/admission: validateInput, validateResult, digestJson and
--                AgentSpecAdmissionManager.resolve (resolve_agent_spec).
--   Registries   src/central/registries: the registries of delegates and agent specs and the index of
--                callees, whose constructors are new_delegate_registry, new_agent_spec_registry and
--                new_binding_index. Proofs are in Registries.Resolution.
--   Delegation   src/central/managers/delegation: the records that delegation-manager.ts makes of a
--                relation and its calls; Delegation.Start (startCall), Delegation.Rounds
--                (acknowledgeCommand, completeTurn, failTurn, failForParentTerminal,
--                failForChildLost, readCall, registerAwait, markAwaitResponded), Delegation.Queue and
--                Delegation.Dispatch (delegation-dispatcher.ts, delegated-session-manager.ts).
--                Delegation.Changes has the writes of a relation as a step relation; the other modules
--                below Delegation have the proofs.
--   Interaction  src/central/managers/interaction/interaction-manager.ts: Interaction.Update (update,
--                interrupt, markViewProjected), Interaction.Views (the projections), Interaction.Reconcile
--                (reconcileInteraction, reconcileLease, deliver), Interaction.Admit and
--                Interaction.Answer (what admitAgentRequest and resolve make), and Interaction.Manager
--                with the public operations. Interaction.Transitions has the writes of an interaction as
--                a step relation; the other modules below Interaction have the proofs.
--   Pairing      src/central/managers/case: Pairing.Crypto for pairing-crypto.ts, Pairing.Manager
--                (mintPairingInvite, redeemPairingInvite, resolveEdgeBinding), Pairing.Revocation
--                (revokeDevice, revokeCase, reconcileTerminalCases) and Pairing.Roster
--                (listCaseDevices) for case-pairing-manager.ts. Proofs are in Pairing.Once,
--                Pairing.Gate, Pairing.Expulsion, Pairing.Lines and Pairing.Listing.
--   Examples     worlds at which the theorems are applied.
--
-- How the code is read. An operation is a function from a world to a result and a world; what was
-- written before a throw stays written. An ISO time stamp is the number of milliseconds that it
-- denotes, and each reading of the clock is one more index into the host's clock. A table lists its
-- records in the order of their creation, as the directory listing is taken to. Objects that the
-- source compares by JSON.stringify are compared field by field, but an interaction's request by its
-- text. The aggregate of a group is kept as
-- the value that its JSON text encodes. Numbers that the source clamps at zero are natural numbers
-- with a subtraction that stops there. The order of texts by localeCompare is the parameter `before`,
-- and a sort is the stable one. The selector's clock is read once for a selection.
--
-- Concurrency. Each compare-and-set runs alone in the source's write sequence of its kind of record,
-- so that it is one step. Between the read and the write of a round other tasks run: World.State.World
-- has the list of their writes, `rivals`, and each round lets one of them happen. A loop `for (;;)` has
-- its rounds counted by fuel, and one round more than there are rivals is enough, since a round is made
-- again only after a rival's write. The operations of a session run
-- one after another in the model; the source serializes only its inputs, so that a pause, a resume, a
-- worker's loss or an agent's event between the reads and writes of an input is not covered. Where a
-- theorem on delegations or interactions has rivals, they replace a record only by one with a higher
-- revision, and random identifiers are not empty texts. What
-- `serializeCaseOperation` runs is one step on its case, and so are the mint and the gate; the rivals
-- of a redemption run before its turn. The chains of promises of the interaction manager swallow their
-- errors and only order what runs; those of the dispatcher pass them on, and are Delegation.Dispatch's
-- table of how each relation's last dispatch ended.
--
-- The event transport. World.State.Host.takes says whether the transport takes an event after what it
-- was handed before; `publish` throws transport_unavailable where it does not, and what follows in the
-- operation does not run. A manager without a transport is one whose transport takes every event.
--
-- Not modelled: the files below the storage (temporary files, renames and their retries), host-pool
-- instances, the session reconciler, worker pools, the freezing of a delegate with its runtime tool,
-- controllers, HTTP, adapters and configuration of Central, the sidecar, the SDKs for edge workers and
-- clients, and the samples. The reconciler's pass that follows a resume is an argument of
-- the resumes, of which nothing is assumed, and the terminal hook an argument of the transitions.
pub mod Base
pub mod Model
pub mod World
pub mod Storage
pub mod Persistence
pub mod Worker
pub mod Session
pub mod Fanout
pub mod Examples
pub mod Pairing
pub mod Delegation
pub mod Interaction
pub mod Admission
pub mod Registries
