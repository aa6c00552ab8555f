-- ===== src/Storage/Entries.antt =====
-- src/storage.rs: writing the table `entries` (`insert_entries_with_stats`) and reading it back
-- (`list_recent`, `pull_since_cursor`, `pull_since_cursor_for_device`).
pub mod Extended
pub mod Invariant
pub mod Insert
pub mod Repeat
pub mod Ids
pub mod PageIds
pub mod Paging
pub mod Pull
use rustory.Prelude.{
  ℕ, suc, ℤ, pos, ◌+◌, ◌-◌, Text, Bool, true, false, Option, none, some, List, [], ◌∷◌, ◌++◌,
  length, keep_if, any_of, sort_by, leb, ltb_ℤ, as_i64, text_eq, if◌then◌else◌, ◌&&◌,
}
use rustory.Errors.{Result, ok, err, anyhow, ◌>>=◌}
use rustory.Core.{Entry, TimeApi}
use rustory.Storage.Schema.{Sqlite, Row, LocalStore, limit_rows}

pub record PullBatch (T : Type 0) : Type 0 where
  pub entries : List (Entry T)
  pub next_cursor : Option ℤ

pub record InsertStats : Type 0 where
  pub inserted : ℕ
  pub ignored : ℕ

-- Whether the table has a row of this entry id, the UNIQUE column.
unfoldable pub has_id : Text → List Row → Bool
has_id id = any_of (λ r. text_eq r.entry_id id)

-- ORDER BY ingest_seq ASC
abbrev pub seq_le : Row → Row → Bool
seq_le r s = leb r.ingest_seq s.ingest_seq

-- ORDER BY ts DESC, device_id ASC, entry_id ASC
abbrev pub recent_le : ⦃sql : Sqlite⦄ → Row → Row → Bool
recent_le ⦃sql⦄ r s =
    if ltb_ℤ s.ts r.ts
    then true
    else if ltb_ℤ r.ts s.ts
    then false
    else if text_eq r.device_id s.device_id
    then sql.text_le r.entry_id s.entry_id
    else sql.text_le r.device_id s.device_id

module _ {T : Type 0} ⦃time : TimeApi T⦄ where
  -- The bound parameters of INSERT, under the key that the row gets.
  unfoldable pub entry_row : ℕ → Entry T → Row
  entry_row seq e = record {
    ingest_seq = seq;
    entry_id = e.entry_id;
    device_id = e.device_id;
    user_id = e.user_id;
    ts = time.unix_timestamp e.ts;
    cmd = e.cmd;
    cwd = e.cwd;
    exit_code = e.exit_code;
    duration_ms = e.duration_ms;
    shell = e.shell;
    hostname = e.hostname;
    version = e.version;
  }

  unfoldable pub row_to_entry : Row → Result (Entry T)
  row_to_entry row = elim (time.from_unix_timestamp row.ts) [
    | none ↦ err (anyhow "invalid unix timestamp")
    | some t ↦ ok (record {
      entry_id = row.entry_id;
      device_id = row.device_id;
      user_id = row.user_id;
      ts = t;
      cmd = row.cmd;
      cwd = row.cwd;
      exit_code = row.exit_code;
      duration_ms = row.duration_ms;
      shell = row.shell;
      hostname = row.hostname;
      version = row.version;
    })
  ]

  -- INSERT OR IGNORE of one entry, with the number of rows that it changed.
  unfoldable pub insert_or_ignore : ⦃sql : Sqlite⦄ → LocalStore → Entry T → LocalStore × ℕ
  unfolding has_id entry_row
  insert_or_ignore ⦃sql⦄ db e =
      if has_id e.entry_id db.entries
      then (record db { entries_mark = sql.ignored_rowid db.entries_mark }, 0)
      else (
        record db {
          entries = db.entries ++ entry_row (sql.next_rowid db.entries_mark) e ∷ [];
          entries_mark = sql.next_rowid db.entries_mark;
        },
        1,
      )

  -- The loop over the batch inside the transaction.
  unfoldable pub insert_loop : ⦃sql : Sqlite⦄ → LocalStore → List (Entry T) → ℕ → LocalStore × ℕ
  insert_loop db [] inserted = (db, inserted)
  insert_loop db (e ∷ es) inserted =
      insert_loop (insert_or_ignore db e).0 es (inserted + (insert_or_ignore db e).1)

  unfoldable pub insert_entries_with_stats :
      ⦃sql : Sqlite⦄ → LocalStore → List (Entry T) → LocalStore × InsertStats
  insert_entries_with_stats db [] = (db, record { inserted = 0; ignored = 0 })
  insert_entries_with_stats db (e ∷ es) =
      let (db', inserted) = insert_loop db (e ∷ es) 0 in
      (db', record { inserted = inserted; ignored = length (e ∷ es) - inserted })

  unfoldable pub insert_entries : ⦃sql : Sqlite⦄ → LocalStore → List (Entry T) → LocalStore
  insert_entries db es = (insert_entries_with_stats db es).0

  -- `rows.collect()`: the first row that does not convert is the error.
  unfoldable pub collect_entries : List Row → Result (List (Entry T))
  unfolding row_to_entry
  collect_entries [] = ok []
  collect_entries (row ∷ rows) = do
    entry ← row_to_entry row
    entries ← collect_entries rows
    ok (entry ∷ entries)

  unfoldable pub list_recent : ⦃sql : Sqlite⦄ → LocalStore → ℕ → Result (List (Entry T))
  unfolding collect_entries sort_by
  list_recent db limit = collect_entries (limit_rows (as_i64 limit) (sort_by recent_le db.entries))

  -- The loop over the rows of a pull.
  unfoldable pub batch_loop : List Row → List (Entry T) → Option ℤ → Result (PullBatch T)
  unfolding row_to_entry
  batch_loop [] entries last_cursor = ok (record { entries = entries; next_cursor = last_cursor })
  batch_loop (row ∷ rows) entries last_cursor = do
    entry ← row_to_entry row
    batch_loop rows (entries ++ entry ∷ []) (some (pos row.ingest_seq))

  unfoldable pub pull_since_cursor : LocalStore → ℤ → ℕ → Result (PullBatch T)
  unfolding batch_loop sort_by
  pull_since_cursor db cursor limit =
      batch_loop
        (limit_rows (as_i64 limit)
          (sort_by seq_le (keep_if (λ r. ltb_ℤ cursor (pos r.ingest_seq)) db.entries)))
        [] none

  unfoldable pub pull_since_cursor_for_device : LocalStore → ℤ → ℕ → Text → Result (PullBatch T)
  unfolding batch_loop sort_by
  pull_since_cursor_for_device db cursor limit device_id =
      batch_loop
        (limit_rows (as_i64 limit) (
          sort_by seq_le (
            keep_if (λ r. ltb_ℤ cursor (pos r.ingest_seq) && text_eq r.device_id device_id)
              db.entries)))
        [] none
