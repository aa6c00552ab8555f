-- ===== src/Storage/Entries/Pull.antt =====
-- src/storage.rs: what the cursor queries return.
use rustory.Prelude.{
  ℕ, suc, ℤ, pos, Text, none, some, List, [], ◌∷◌, ◌++◌, ◌≡◌, refl, ap, ◌∙◌, inl, inr, arith,
  length, All, as_i64, text_eq,
}
use rustory.Errors.{ok, err, Result-cases}
use rustory.Core.{Entry, TimeApi}
use rustory.Storage.Schema.{Row, LocalStore}
use rustory.Storage.Entries.{
  entry_row, row_to_entry, batch_loop, pull_since_cursor, pull_since_cursor_for_device,
}
use rustory.Storage.Entries.Invariant.{
  IsWellFormed, IsReadable, Rising-keep_if, sort_by-Rising, All-keep_if, All-limit_rows,
}
use rustory.Storage.Entries.Paging.{after, of_device, page, last_key, next_of, after-of_device}
use mathlib.Core.List.{append-nil, append_assoc}

module _ {T : Type 0} (time : TimeApi T) where
  -- The entries of the rows, in order; a row whose time is no date has none.
  unfoldable pub entries_of : List Row → List (Entry T)
  entries_of [] = []
  entries_of (r ∷ rows) = elim (row_to_entry ⦃time = time⦄ r) [
    | ok e ↦ e ∷ entries_of rows
    | err _ ↦ entries_of rows
  ]

  pub entries_of_cons :
      (r : Row) (e : Entry T) (rows : List Row)
      → row_to_entry ⦃time = time⦄ r ≡ ok e
      → entries_of (r ∷ rows) ≡ e ∷ entries_of rows
  unfolding entries_of
  entries_of_cons r e rows d = rw (d, entries_of)

  pub entries_of-append :
      (rows more : List Row) → entries_of (rows ++ more) ≡ entries_of rows ++ entries_of more
  unfolding entries_of
  entries_of-append [] more = refl
  entries_of-append (r ∷ rows) more = elim (Result-cases (row_to_entry ⦃time = time⦄ r)) [
    | inl (e, d) ↦ rw (d, entries_of) (ap (λ l. e ∷ l) (entries_of-append rows more))
    | inr (e, d) ↦ rw (d, entries_of) (entries_of-append rows more)
  ]

  pub readable_entry :
      (r : Row) → IsReadable time r → (e : Entry T) × (row_to_entry ⦃time = time⦄ r ≡ ok e)
  unfolding row_to_entry
  readable_entry r (t, h) = (
    record {
      entry_id = r.entry_id;
      device_id = r.device_id;
      user_id = r.user_id;
      ts = t;
      cmd = r.cmd;
      cwd = r.cwd;
      exit_code = r.exit_code;
      duration_ms = r.duration_ms;
      shell = r.shell;
      hostname = r.hostname;
      version = r.version;
    },
    rw (h, row_to_entry),
  )

  pub length-entries_of :
      (rows : List Row) → All (IsReadable time) rows → length (entries_of rows) ≡ length rows
  unfolding entries_of
  length-entries_of [] h = refl
  length-entries_of (r ∷ rows) h =
      let (e, d) = readable_entry r h.0 in
      rw (entries_of_cons r e rows d) (ap suc (length-entries_of rows h.1))

module _ {T : Type 0} ⦃time : TimeApi T⦄ where
  -- Reading a row and writing the entry back under the same key gives the row.
  pub entry_row-row_to_entry :
      (r : Row) (e : Entry T) → row_to_entry r ≡ ok e → entry_row r.ingest_seq e ≡ r
  unfolding row_to_entry entry_row
  entry_row-row_to_entry r e h = ground (arith, time.timestamp_of r.ts e.ts)

  pub row_to_entry-entry_id :
      (r : Row) (e : Entry T) → row_to_entry r ≡ ok e → e.entry_id ≡ r.entry_id
  unfolding row_to_entry
  row_to_entry-entry_id r e h = ground arith

  batch_loop_last :
      (k : ℕ) (rows : List Row) (acc : List (Entry T))
      → All (IsReadable time) rows
      → batch_loop rows acc (some (pos k))
        ≡ ok (record {
          entries = acc ++ entries_of time rows;
          next_cursor = some (pos (last_key k rows));
        })
  unfolding batch_loop entries_of
  batch_loop_last k [] acc h = rw (append-nil acc)
  batch_loop_last k (r ∷ rows) acc h =
      let (e, d) = readable_entry time r h.0 in
      rw (d, entries_of_cons time r e rows d, batch_loop)
        (batch_loop_last r.ingest_seq rows (acc ++ e ∷ []) h.1
          ∙ rw (append_assoc acc (e ∷ []) (entries_of time rows)))

  batch_loop_lem :
      (rows : List Row)
      → All (IsReadable time) rows
      → batch_loop rows [] none
        ≡ ok (record { entries = entries_of time rows; next_cursor = next_of rows })
  unfolding batch_loop entries_of
  batch_loop_lem [] h = refl
  batch_loop_lem (r ∷ rows) h =
      let (e, d) = readable_entry time r h.0 in
      rw (d, entries_of_cons time r e rows d, batch_loop)
        (batch_loop_last r.ingest_seq rows (e ∷ []) h.1)

  -- A pull returns the first `limit` rows past the cursor in the order of their keys, and the key
  -- of the last of them as the next cursor.
  pub pull_since_cursor_lem :
      (db : LocalStore) (cursor : ℤ) (limit : ℕ)
      → IsWellFormed time db
      → pull_since_cursor db cursor limit
        ≡ ok (record {
          entries = entries_of time (page cursor limit db.entries);
          next_cursor = next_of (page cursor limit db.entries);
        })
  unfolding pull_since_cursor
  pull_since_cursor_lem db cursor limit w =
      rw
        (sort_by-Rising 0 db.entries_mark (after cursor db.entries)
          (Rising-keep_if _ 0 db.entries_mark db.entries w.rising))
        (batch_loop_lem (page cursor limit db.entries) (
          All-limit_rows (IsReadable time) (as_i64 limit) _
            (All-keep_if (IsReadable time) _ db.entries w.readable)))

  -- The same for the rows of one device.
  pub pull_since_cursor_for_device_lem :
      (db : LocalStore) (cursor : ℤ) (limit : ℕ) (device_id : Text)
      → IsWellFormed time db
      → pull_since_cursor_for_device db cursor limit device_id
        ≡ ok (record {
          entries = entries_of time (page cursor limit (of_device device_id db.entries));
          next_cursor = next_of (page cursor limit (of_device device_id db.entries));
        })
  unfolding pull_since_cursor_for_device
  pull_since_cursor_for_device_lem db cursor limit device_id w =
      let rising =
        Rising-keep_if (λ r. text_eq r.device_id device_id) 0 db.entries_mark db.entries w.rising in
      rw
        (
          after-of_device cursor device_id db.entries,
          sort_by-Rising 0 db.entries_mark (after cursor (of_device device_id db.entries))
              (Rising-keep_if _ 0 db.entries_mark (of_device device_id db.entries) rising),
        )
        (batch_loop_lem (page cursor limit (of_device device_id db.entries)) (
          All-limit_rows (IsReadable time) (as_i64 limit) _ (
            All-keep_if (IsReadable time) _ (of_device device_id db.entries)
              (All-keep_if (IsReadable time) _ db.entries w.readable))))
