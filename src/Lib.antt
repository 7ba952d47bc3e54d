-- ===== src/Lib.antt =====
-- Loot of Legends: the core of the game server (game-server/), as executable definitions with proofs.
--
-- The server takes logins (the session registry), seats sessions in rooms, starts a battle from a
-- room when its host asks and everyone is ready, reserves room in the settlement outbox for the
-- battle's result, and talks to clients over a reliable datagram transport of its own. A disconnected
-- session is detached and can be resumed for a while; a room goes from open through loading and in
-- progress to awaiting its settlement, and back.
--
-- Base, Base/*: Boolean tests on numbers, words of 32 and 64 bits with their wrap-around written out,
--   bit operations, lists and association lists.
-- Rudp: game-server/platform/transport-rudp. Rudp/Header is the header of RudpHeader.cpp
--   (Rudp/Header/Roundtrip its round trip), Rudp/Sequence isSequenceNewer of that file,
--   Rudp/Peer RudpPeer.cpp (observe is RudpPeerDelivery::observe, is_acknowledged isAcknowledged),
--   Rudp/Rtt RttEstimator.cpp, Rudp/Queue and Rudp/Queue/Acknowledge ReliableQueue.cpp, one function
--   per method. Rudp/Bindings, Rudp/Bindings/Bind and Rudp/Bindings/Timeouts are
--   RudpBindingRegistry.cpp, one function per method; what the operating system draws in a call is a
--   parameter of it. Rudp/Bindings/Invariant, Accepted and History are proofs about the bindings.
--   Rudp/Peer/Window and Rudp/Peer/History are proofs about the window,
--   Rudp/Queue/Invariant, PollKeeps, AcknowledgeKeeps, EnqueueKeeps and Run about the queue over any
--   calls, Rudp/Queue/Poll and Rudp/Queue/Selection about what one call does.
-- LobbyRoom: game-server/modules/lobby-room/src/domain/Room.cpp. LobbyRoom/Text is the text
--   validation, LobbyRoom/Room and LobbyRoom/Room/Commit the methods of Room. A `command` struct is
--   the arguments of its method. Room/Invariant, Room/Lifecycle and Room/Membership are proofs, and
--   so are Text/Encoding, Text/Sound, Text/Complete and Text/Utf8.
-- Session: game-server/modules/session/src/SessionRegistry.cpp; Session/Recover is its
--   installRecoveredDetached. Session/Invariant, RecoverKeeps, Run and Resume are proofs.
-- Settlement: game-server/modules/settlement. Settlement/Capacity is SettlementCapacityGate.cpp, and
--   Settlement/Capacity/System the reservation objects in use; Admission and Balance are proofs.
-- Battle: game-server/modules/battle. Battle/AttackResults is src/application/AttackResultStore.cpp;
--   its Invariant, Import, Run and Replay are proofs, with the calls of a run in Run. Battle/Drops is
--   src/domain/Drop.cpp and RelicCatalog.cpp; Drops/Table is proofs. Battle/LootResults, with
--   LootResults/Retained, is src/application/LootResultStore.cpp, Battle/Combat
--   src/domain/CombatState.cpp, Battle/Time include/lol/battle/BattleTime.hpp, Battle/Motion the
--   movement and the rate limits of src/domain/BattleInstance.cpp, Battle/Result with Result/Checks
--   src/application/ResultBuilder.cpp; Motion/Search, Result/Ranking and Result/Checks/Accepts are
--   proofs. Battle/Instance is the state of BattleInstance.cpp and its children are its methods: Load
--   (admission and load barrier), Exit, Input, Attack, Deadlines, Commit, Views, and Claim, which is
--   src/application/LootHandler.cpp. A method that calls std::terminate gives none there.
--   Instance/Invariant and its children are proofs, with the calls of a run in Invariant/Run.
-- GameFlow: game-server/modules/game-flow. GameFlow/Routes is src/execution/SessionRouteIndex.cpp;
--   GameFlow/Routes/Lookup is proofs.
-- Runtime: game-server/platform/runtime. Runtime/Process is src/ProcessLifecycle.cpp, Runtime/Deadlines
--   src/DeadlineScheduler.cpp, whose thread takes one step per pass; Deadlines/Invariant, Keeps,
--   LeaseKeeps, Run and Order are proofs, with the steps of a run in Run.
-- Every Tests module runs its part on small inputs.
--
-- Numbers: identifiers, sizes and clocks are native natural numbers. Sums and differences that the
-- source computes on 32 or 64 bits wrap as written in Base/Words wherever a bound is not evident;
-- where an increment cannot wrap, a comment says why. Clock differences are cut off at zero, which
-- agrees with the source where it only compares them with a positive bound. A byte is a number, an
-- account id in the session registry the number that its bytes spell. A method that changes its
-- object returns the new one; an exception is none. The mutexes of the capacity gate, the
-- route index, the bindings and the deadline scheduler are held for a whole call, so that a
-- run is a sequence of calls.
--
-- Fuel: the loop of validUtf8 runs on as much fuel as the text has bytes; every round takes at least
-- one byte off. The search of scaledComponent starts with a range of 250 and at least halves it, so
-- that eight rounds are enough.
--
-- Not modelled: sockets, files, threads, metrics, HTTPS and the composition root, which are input and
-- output; the payload codecs, the export and import of a battle's deterministic state, the room execution but
-- for the route index, the worker pool and the continuity records.
mod Base
pub mod Rudp
pub mod LobbyRoom
pub mod Session
pub mod Settlement
pub mod Battle
pub mod GameFlow
pub mod Runtime
