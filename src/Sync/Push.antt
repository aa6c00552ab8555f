-- ===== src/Sync/Push.antt =====
-- src/sync.rs: `sync_push_to_peer` and `sync_push_to_peer_async`.
pub mod NoGap
pub mod Delivered
pub mod Complete
use rustory.Prelude.{
  ℕ, ℤ, ◌+◌, Text, Option, none, some, List, [], ◌∷◌, length, leb, leb_ℤ, if◌then◌else◌, ◌==◌,
}
use rustory.Errors.{Error, Result, ok, err, anyhow, context}
use rustory.Core.{Entry, TimeApi}
use rustory.Loop.{Step, next, stop, run_loop}
use rustory.Storage.Schema.{LocalStore}
use rustory.Storage.Entries.{PullBatch, pull_since_cursor, pull_since_cursor_for_device}
use rustory.Storage.Peers.{get_last_pushed_seq, set_last_pushed_seq}
use rustory.Sync.{Run, is_payload_too_large_error, halved}

-- The variables of the push loop.
pub record PushState (R : Type 0) : Type 0 where
  pub local : LocalStore
  pub remote : R
  pub cursor : ℤ
  pub batch_limit : ℕ
  pub pushed_total : ℕ

abbrev pub leave_push : {R : Type 0} → PushState R → Result ℕ → Step (PushState R) (Run R ℕ)
leave_push s r = stop (record { result = r; local = s.local; remote = s.remote })

-- The closure `push`, or `Pusher::push`: the far side takes a list of entries.
abbrev pub PushFn : Type 0 → Type 0 → Type 0
PushFn T R = R → List (Entry T) → Result (Unit {0}) × R

module _ {R : Type 0} where
  push_advance : Text → PushState R → Option ℤ → Step (PushState R) (Run R ℕ)
  push_advance peer_id s none =
      leave_push s
        (err (anyhow "invalid local push batch: entries is non-empty but next_cursor is None"))
  push_advance peer_id s (some next_cursor) =
      if leb_ℤ next_cursor s.cursor
      then leave_push s (err (anyhow "invalid local push batch: next_cursor did not advance"))
      else next (record s {
        cursor = next_cursor;
        local = set_last_pushed_seq s.local peer_id next_cursor;
      })

  push_answer : Text → PushState R → ℕ → Option ℤ → Result (Unit {0}) → Step (PushState R) (Run R ℕ)
  push_answer peer_id s entries_len next_cursor (ok _) =
      push_advance peer_id (record s { pushed_total = s.pushed_total + entries_len }) next_cursor
  push_answer peer_id s entries_len next_cursor (err e) =
      if is_payload_too_large_error e
      then (if leb s.batch_limit 1
          then leave_push s (err (context "push batch too large even with limit=1" e))
          else next (record s { batch_limit = halved s.batch_limit }))
      else leave_push s (err e)

  pub push_start : LocalStore → Text → ℕ → R → PushState R
  push_start local peer_id limit remote = record {
    local = local;
    remote = remote;
    cursor = get_last_pushed_seq local peer_id;
    batch_limit = limit;
    pushed_total = 0;
  }

module _ {T R : Type 0} where
  push_entries :
      PushFn T R → Text → PushState R → List (Entry T) → Option ℤ → Step (PushState R) (Run R ℕ)
  push_entries push peer_id s [] next_cursor = leave_push s (ok s.pushed_total)
  push_entries push peer_id s (e ∷ es) next_cursor =
      let (answer, remote) = push s.remote (e ∷ es) in
      push_answer peer_id (record s { remote = remote }) (length (e ∷ es)) next_cursor answer

  push_read : PushFn T R → Text → PushState R → Result (PullBatch T) → Step (PushState R) (Run R ℕ)
  push_read push peer_id s (ok batch) = push_entries push peer_id s batch.entries batch.next_cursor
  push_read push peer_id s (err e) = leave_push s (err e)

module _ {T R : Type 0} ⦃time : TimeApi T⦄ where
  pub push_batch : PushState R → Option Text → Result (PullBatch T)
  push_batch s (some device_id) =
      pull_since_cursor_for_device s.local s.cursor s.batch_limit device_id
  push_batch s none = pull_since_cursor s.local s.cursor s.batch_limit

  unfoldable pub push_step :
      PushFn T R → Text → Option Text → PushState R → Step (PushState R) (Run R ℕ)
  unfolding push_batch push_advance push_answer push_entries push_read
  push_step push peer_id source_device_id s =
      push_read push peer_id s (push_batch s source_device_id)

  unfoldable pub sync_push_to_peer :
      ℕ → LocalStore → Text → ℕ → Option Text → PushFn T R → R → Option (Run R ℕ)
  unfolding push_start
  sync_push_to_peer fuel local peer_id limit source_device_id push remote =
      if limit == 0
      then some (record { result = ok 0; local = local; remote = remote })
      else run_loop fuel (push_step push peer_id source_device_id)
          (push_start local peer_id limit remote)

  -- The same loop over an awaited `Pusher`.
  unfoldable pub sync_push_to_peer_async :
      ℕ → LocalStore → Text → ℕ → Option Text → PushFn T R → R → Option (Run R ℕ)
  unfolding push_start
  sync_push_to_peer_async fuel local peer_id limit source_device_id pusher remote =
      if limit == 0
      then some (record { result = ok 0; local = local; remote = remote })
      else run_loop fuel (push_step pusher peer_id source_device_id)
          (push_start local peer_id limit remote)
