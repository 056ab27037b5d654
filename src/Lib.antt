-- ===== src/Lib.antt =====
-- Verification of cmt-top, a monitor for CometBFT consensus: it listens to a node's websocket, polls
-- endpoints over HTTP, keeps what it sees of the current round, of the blocks and of the votes, finds
-- rounds whose votes split, compares the application hashes of endpoints, and sends all of that to
-- subscribers and to websocket clients.
--
-- The parts, and where they are modelled:
--   * internal/state/types.go and state.go: State/Types (the records), State/Health (New, Mutate,
--     Snapshot, Health.ModeAt).
--   * internal/core/transitions.go: Core/Transitions (advanceRound, mergeValidatorRound, appendBlock,
--     recordHTTPSuccess, clearRoundVotes, markProposer), with Transitions/Rounds, Blocks and Rows.
--   * internal/core/orchestrator.go with internal/events/payloads.go and the event records of
--     internal/chain/cometws/eventdata.go: Core/Notices (the records), Core/Handlers (handleWSEvent
--     and the handlers below it), Core/Replies and Core/Pollers (refreshStatus, refreshValidators,
--     refreshUpgrade, refreshBlockTime, refreshConsensusViaHTTP, refreshLatestBlock), Core/Inputs
--     (a handler or a poller as a step). The proofs are in Core/Invariant, Preserved, Validity,
--     Soundness and Votes.
--   * internal/core/comparison.go: Core/Comparison, with Core/Offers and Core/Agreement on what it
--     concludes.
--   * internal/divergence: Divergence/Types, Archive and Votes (archive.go: ObserveRound, ObserveVote,
--     archiveCommitLocked and the evictions), Validators, Report, Tracker and Resolve (tracker.go: New,
--     SetValidators, IngestVote, MarkRoundAdvanced, ResolveCommit, CurrentReport, report), Evidence and
--     Snapshot (archive.go and archive_snapshot.go: the report on one height). The proofs are in
--     Bounds, VoteLimits, VoteBounds, Runs, Find, Resend, Idempotence, History, Split, Settled,
--     Balance, Groups, Revision, Versions, Freshness and Unchanged.
--   * internal/events/bus.go: Events/Bus and Events/Delivery.
--   * internal/web/ws_queue.go with the client of ws.go: Web/Queue, Queue/Accounting and Queue/Order.
--   * internal/web/rounds_cache.go, and `encoded` of rounds_compact.go: Web/Cache, Cache/Limits, which
--     is about the loop that makes room, and Cache/Uses, which is about sequences of uses.
--     Web/Reports is about which report is served, over the archive's history, and Reports/Settled
--     about the coalesced ones.
--   * internal/web/budget.go, `clientIP`: Web/Budget.
--   * internal/chain/cometrpc/client.go: Chain/Pool (newPool, Active, SetActive, do) and Chain/Pages
--     (AllValidators), with the proofs in Rotation, Failover, Paging and Collected.
--   * internal/chain/cometws/client.go: Chain/Socket (New, subscriptionURL), Chain/Session
--     (connectAndPump, decodeEvent) and Chain/Reconnect (Run), with the proofs in Lifecycle, Retries,
--     Waits and Dials.
--   * internal/config/config.go: Config/Text, Types (Defaults, PrimaryRPC), Env (applyEnv) and Validate,
--     with the proofs in Validity, Words, Primary, Checks, Consistent and
--     Overrides.
--   * Base holds the shared helpers: tests on numbers and texts, lists, Go's int64 (Base/Int, with the
--     wrap-around of `+` and `-` written out), and maps as association lists (Base/Maps).
--
-- How they interact: the orchestrator is its state, its tracker and the list of what it has
-- published. A handler runs `Mutate` on the state, calls the tracker and publishes, in the order of
-- the source. Locks make each operation one step; the order of operations is any sequence.
--
-- Conventions: a method that changes its receiver returns the new record; the clock is an argument,
-- read once in an operation; an error is the text of its message; a nil pointer is `none`; a Go map
-- is an association list, whose order no statement reads. A loop is recursion on its list. Two loops
-- take what drives them as an argument: the reconnection takes the list of what each round brings, and
-- the pages of a validator set take 2^63 + 1 rounds, which are enough since a total is an int64 and
-- every page but the last brings a validator.
--
-- A panic is the value `none` where it is modelled: a fault of a client's queue, and that of
-- ResolveCommit where `HistorySize * 4` wraps to a negative number (`commit_or_fault`). The other
-- modules take `resolve_commit`, the call without that fault.
--
-- Parameters: Go's float64 arithmetic (`Floats`), upper and lower case (`Texts`), splitting a text,
-- parsing a number and a quotient of big integers (`Library`), every answer of an endpoint, with its
-- client and circuit breaker (`attempt`, `ask`), the JSON decoder (`Decoder`), and the parsers of
-- URLs, prefixes and addresses (`Parsers`). Hypotheses are made of replies alone: that a total is an
-- int64, that it is the true number of validators, and that a random number is below its bound; or of the configuration: that the
-- size of the history is below 2^61, and that the milliseconds of the window fit int64 as nanoseconds.
--
-- Not modelled: network and terminal I/O, the selection and the compact form of round reports, the
-- hub's registry and resynchronisation, the loading of configuration files, metrics and the load
-- generator.
pub mod Base
pub mod State
pub mod Events
pub mod Core
pub mod Divergence
pub mod Chain
pub mod Config
pub mod Web
