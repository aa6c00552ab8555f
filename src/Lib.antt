-- ===== src/Lib.antt =====
-- rustory: a shell history that devices keep in a local store and synchronise with one another.
--
-- Parts and files (paths from the repository's root, without a leading src/):
-- - src/core.rs: Core.antt. The entry; `OffsetDateTime` is a parameter (`TimeApi`): a time
--   that is made from seconds has these seconds, but the seconds of a time need not be a date again (a
--   time of the year 9999 with an offset to the west). Where a store must stay readable, the theorems
--   ask for entries whose times are (`IsAccepted` in Storage/Entries/Invariant.antt).
-- - src/storage.rs: Storage.antt and below. `Schema` has the tables as lists of rows and what is
--   relied on in SQLite (`Sqlite`: how AUTOINCREMENT picks a key, the order of texts) and in the JSON
--   of addresses (`AddrsJson`). `Entries` has the statements on the table `entries`, `Peers` those on
--   the three tables of peers, `Prune` the counts and deletions. Each SQL statement is written as the
--   function on rows that it denotes: WHERE as `keep_if`, ORDER BY as `sort_by`, LIMIT as
--   `limit_rows`, which takes a negative bound as none (a limit of 2^63 or more becomes negative).
-- - src/sync.rs: Sync.antt (progress, payload errors), Sync/Pull.antt and Sync/Push.antt (the loops,
--   for the closures and for the async traits). The far side is a function on a state of its own; of a
--   push whose answer is an error it may have stored the batch (`IsSink` in Sync/Push/Delivered.antt).
--   The abstract view of both loops is the set of entry ids of a store (Storage/Entries/Ids.antt).
-- - src/http_retry.rs: HttpRetry.antt (policies, durations in nanoseconds, the loop of attempts, which
--   records the answers, the timeouts and the sleeps).
-- - src/history_import.rs: HistoryImport.antt (the import loop and its batches) and
--   HistoryImport/Parse.antt (the two parsers). The time of the import, `uuid` v5 and the test of a
--   regex are parameters. The string methods of Rust are in Prelude/Words.antt.
-- - src/tracker.rs: Tracker.antt (the server's routes and its table of peers, a list in no particular
--   order; `TrackerApi` has what other packages compute), Tracker/Peers.antt and Tracker/Routes.antt.
-- - src/transport.rs: Transport.antt (the server for entries, its queries and the normalisation of
--   URLs; `EntriesJson` is the JSON of a body), Transport/Client.antt (the requests of a pull and of a
--   push; `WireJson` is the JSON that travels, `Web` the network, a function on a state of its own,
--   with the number of bytes up to which a body is read), Transport/Remote.antt,
--   Transport/Pulled.antt and Transport/Pushed.antt (client and server together) and
--   Transport/Peers.antt (`sync` over several peers, on the variables of Sync/Peers.antt).
-- - src/p2p.rs: P2p/Addrs.antt (addresses; a `Multiaddr` is the list of its protocols),
--   P2p/Targets.antt (the peers of a run), P2p/Client.antt (connections, retries, acknowledgements; the
--   swarm is a parameter), P2p/Run.antt (`sync_async`), P2p/Serve.antt (the server's events) and
--   P2p/Pulled.antt (a pull from a peer that answers from its store).
-- - src/cli.rs: Cli/Settings.antt (values from the command line, the environment and the file of
--   src/config.rs), Cli/Policy.antt (the retry policy), Cli/Intervals.antt (rate limits and cutoffs) and
--   Cli/AutoPrune.antt (the automatic removal of old entries, with the content of its marker
--   file, whose write may fail).
-- - src/search.rs: Search.antt (the lines for fzf and the command of the selected one).
-- - anyhow errors: Errors.antt, a chain of causes. Loops: Loop.antt, a step run on fuel, with
--   rules for partial and total correctness. Prelude.antt: shared names, integers, lists and text.
--
-- Fuel: a round of a sync loop either shortens what is left or halves the limit, so that more rounds
-- than rows left plus the limit are enough; the theorems on complete runs state this bound.
--
-- Not modelled: in src/cli.rs the parsing of arguments, the reports and the processes that are
-- started; src/p2p_codec.rs, src/hook.rs and the reading of files in src/config.rs; in src/p2p.rs the
-- construction of swarms, the relay server and the wait for the event that answers a request; the
-- client of the tracker; failures of the SQLite engine itself and the end of its 63-bit keys, sums of
-- counters past 64 bits, the network, the file system and fzf.
pub mod Prelude
pub mod Errors
pub mod Core
pub mod Loop
pub mod Storage
pub mod Sync
pub mod HttpRetry
pub mod Transport
pub mod Tracker
pub mod HistoryImport
pub mod Search
pub mod Cli
pub mod Tests
pub mod P2p
