-- ===== src/Sync/Pull.antt =====
-- src/sync.rs: `sync_pull_from_peer` and `sync_pull_from_peer_async`.
pub mod Safety
pub mod NoGap
pub mod Complete
pub mod Range
pub mod Origin
pub mod Union
use rustory.Prelude.{
  ℕ, ℤ, ◌+◌, Text, Option, none, some, List, [], ◌∷◌, length, leb, leb_ℤ, if◌then◌else◌, ◌==◌,
}
use rustory.Errors.{Error, Result, ok, err, anyhow, context}
use rustory.Core.{Entry, TimeApi}
use rustory.Loop.{Step, next, stop, run_loop}
use rustory.Storage.Schema.{Sqlite, LocalStore}
use rustory.Storage.Entries.{PullBatch, insert_entries_with_stats}
use rustory.Storage.Peers.{get_last_cursor, set_last_cursor}
use rustory.Sync.{PullStats, Run, is_payload_too_large_error, halved}

-- The variables of the pull loop.
pub record PullState (R : Type 0) : Type 0 where
  pub local : LocalStore
  pub remote : R
  pub cursor : ℤ
  pub batch_limit : ℕ
  pub received_total : ℕ
  pub inserted_total : ℕ
  pub ignored_total : ℕ

abbrev pub leave_pull :
    {R : Type 0} → PullState R → Result PullStats → Step (PullState R) (Run R PullStats)
leave_pull s r = stop (record { result = r; local = s.local; remote = s.remote })

-- The closure `pull`, or `Puller::pull`: the far side answers a cursor and a limit.
abbrev pub PullFn : Type 0 → Type 0 → Type 0
PullFn T R = R → ℤ → ℕ → Result (PullBatch T) × R

module _ {R : Type 0} where
  pull_failed : PullState R → Error → Step (PullState R) (Run R PullStats)
  pull_failed s e =
      if is_payload_too_large_error e
      then (if leb s.batch_limit 1
          then leave_pull s (err (context "pull batch too large even with limit=1" e))
          else next (record s { batch_limit = halved s.batch_limit }))
      else leave_pull s (err e)

  pull_advance : Text → PullState R → Option ℤ → Step (PullState R) (Run R PullStats)
  pull_advance peer_id s none =
      leave_pull s (err (anyhow "invalid pull batch: entries is non-empty but next_cursor is None"))
  pull_advance peer_id s (some next_cursor) =
      if leb_ℤ next_cursor s.cursor
      then leave_pull s (err (anyhow "invalid pull batch: next_cursor did not advance"))
      else next
          (record s { cursor = next_cursor; local = set_last_cursor s.local peer_id next_cursor })

  pull_start : LocalStore → Text → ℕ → R → PullState R
  pull_start local peer_id limit remote = record {
    local = local;
    remote = remote;
    cursor = get_last_cursor local peer_id;
    batch_limit = limit;
    received_total = 0;
    inserted_total = 0;
    ignored_total = 0;
  }

module _ {T R : Type 0} ⦃time : TimeApi T⦄ ⦃sql : Sqlite⦄ where
  pull_received :
      Text → PullState R → List (Entry T) → Option ℤ → Step (PullState R) (Run R PullStats)
  pull_received peer_id s [] next_cursor = leave_pull s (
      ok (record {
        received = s.received_total;
        inserted = s.inserted_total;
        ignored = s.ignored_total;
      }))
  pull_received peer_id s (e ∷ es) next_cursor =
      let (local, stats) = insert_entries_with_stats s.local (e ∷ es) in
      pull_advance peer_id
        (record s {
          local = local;
          received_total = s.received_total + length (e ∷ es);
          inserted_total = s.inserted_total + stats.inserted;
          ignored_total = s.ignored_total + stats.ignored;
        })
        next_cursor

  pull_answer : Text → PullState R → Result (PullBatch T) → Step (PullState R) (Run R PullStats)
  pull_answer peer_id s (ok batch) = pull_received peer_id s batch.entries batch.next_cursor
  pull_answer peer_id s (err e) = pull_failed s e

  unfoldable pub pull_step : PullFn T R → Text → PullState R → Step (PullState R) (Run R PullStats)
  unfolding pull_failed pull_advance pull_received pull_answer
  pull_step pull peer_id s =
      let (answer, remote) = pull s.remote s.cursor s.batch_limit in
      pull_answer peer_id (record s { remote = remote }) answer

  unfoldable pub sync_pull_from_peer :
      ℕ → LocalStore → Text → ℕ → PullFn T R → R → Option (Run R PullStats)
  unfolding pull_start
  sync_pull_from_peer fuel local peer_id limit pull remote =
      if limit == 0
      then some (record {
        result = ok (record { received = 0; inserted = 0; ignored = 0 });
        local = local;
        remote = remote;
      })
      else run_loop fuel (pull_step pull peer_id) (pull_start local peer_id limit remote)

  -- The same loop over an awaited `Puller`.
  unfoldable pub sync_pull_from_peer_async :
      ℕ → LocalStore → Text → ℕ → PullFn T R → R → Option (Run R PullStats)
  unfolding pull_start
  sync_pull_from_peer_async fuel local peer_id limit puller remote =
      if limit == 0
      then some (record {
        result = ok (record { received = 0; inserted = 0; ignored = 0 });
        local = local;
        remote = remote;
      })
      else run_loop fuel (pull_step puller peer_id) (pull_start local peer_id limit remote)
