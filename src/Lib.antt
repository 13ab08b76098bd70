-- ===== src/Lib.antt =====
-- qlb picks, for each request of a coding agent, the account whose subscription serves it. The part
-- modelled here is the core of that choice and the store that it reads and writes.
--
--   Base: shared types, tests, texts (lists of UTF-16 codes), JavaScript's array methods, sorting,
--   decimal numerals.
--   Types (src/types.ts): a bucket's reading and an account's snapshot.
--   Scoring (src/scoring.ts): which buckets bear on a model (relevantBuckets), their classes and
--   factors, and the score of an account (scoreAccount). Percentages are numbers of 1e-10 %, the grain
--   to which the code rounds, and factors are in tenths, so the model is exact where the code rounds
--   floats; readings are not negative.
--   Overrides (src/overrides.ts): kinds of override, the --until argument (parseUntil).
--   Store (src/store.ts): the tables that routing uses, as lists of rows. A statement is a function on
--   the store and a transaction is one function, so it is atomic. Store/Config has the config table and
--   nextRoundRobinIndex, Store/Overrides the pins and reservations.
--   Strategies (src/strategies.ts): headroom, spread, round robin and failover, in a module each, and
--   pickAccount over them. The hash of a session is a parameter.
--   Resolve (src/resolve.ts): resolveFromSnapshots. Resolve/Pinned answers a pinned session,
--   Resolve/Route walks the requested model and its fallbacks, Resolve/Resets is findEarliestReset.
--   Lease (src/refresh-lease.ts): refreshIfNeeded, an attempt at a time. Its world is the store and the
--     Keychain items; what it awaits is data of an attempt. Lease/Steps has the
--     steps that refreshes by any processes take on an account, with a read of the item and the repair
--     that follows as two steps, and the crash between the Keychain write and the commit; Lease/Runs is
--     about their runs. A first read that fails though the item is there, and overwrites it, and the
--     writes of other modules to the Keychain (native-resync.ts, migrations) are no such steps. The
--     store's statements on leases and generations are in Store/Leases.
--   Policy (src/policy.ts): applyCodexEffort on the reasoning field of a request, harnessForPath.
--   Store/Polls (src/store.ts): the readings and the claims on polling. Store/Polls/Actions
--     has the transactions on them, deleting an account (Store/Deletes) included, as actions of a
--     process, and the lock that they implement. The moves of rows by codex-rekey.ts are left out.
--   SingleFlight (src/single-flight.ts): singleFlightFetch, a pass at a time, over Store/Polls. What other
--     processes do while it awaits is a function on the store.
--   Autoswitch (src/autoswitch.ts, src/lines.ts): decideAutoswitch, from the settings over the census of
--     the accounts and their ranking to the decision. Percentages are as in Scoring; a headroom on the
--     lines' ruler is an exact fraction, where the code has a float.
--   Store/Usage (src/store.ts): the usage_polls table, without the columns of Codex diagnostics.
--   PollPolicy (src/poll-policy.ts): dueCandidate and repairOverduePlans, with Store/Usage as the writer.
--     Times are whole seconds, and what jitter makes of an interval is an argument.
--   Classify (src/cc-classify.ts): classifyOutgoingCredential, prefetchLiveIdentity and
--     decideSelfSwitchAction. JSON.parse and SHA-256 are parameters.
--   Retire (src/retire.ts): retireNativeStore over its guards. The paths of node, SHA-256 and the
--     sidecar's text are parameters. From the look at the path to the new rows is one step.
--
-- The parts meet as in the code: Resolve reads the overrides of the Store, calls pickAccount of
-- Strategies with the store, which scores by Scoring and may move the rotation counter or the sticky
-- account, and records the decision. `now` stands for Date.now(); one resolution reads it once. All
-- loops of the code modelled here run over lists and are structural recursion, but for
-- the loop of refreshIfNeeded, which the source bounds by 32 attempts, and the wait of singleFlightFetch,
-- which has as many turns as its deadline has milliseconds: each turn sleeps at least one.
--
-- Not modelled: the texts of decisions (reason, snapshot_json), Date.parse, SHA-256, the network,
-- processes and the keychain helper, the commands, the dashboard, the moving of credentials between
-- stores, the moves of rows between the ids of a Codex account, and the switching of the accounts of
-- Claude Code and Codex, whose decisions are modelled but not their effects. A number of more than 15
-- digits, which JavaScript rounds, is exact
-- here. A text is trimmed of the white space of JavaScript.
pub mod Base
pub mod Types
pub mod Scoring
pub mod Overrides
pub mod Store
pub mod Strategies
pub mod Resolve
pub mod Lease
pub mod Policy
pub mod SingleFlight
pub mod Autoswitch
pub mod Classify
pub mod PollPolicy
pub mod Retire
