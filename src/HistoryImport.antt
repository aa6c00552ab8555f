-- ===== src/HistoryImport.antt =====
-- src/history_import.rs: importing the history file of a shell into the store.
pub mod Parse
pub mod Batches
pub mod Outcome
pub mod Twice
pub mod Times
pub mod Extended
use rustory.Prelude.{
  ℕ, suc, ◌+◌, ◌-◌, ℤ, pos, Text, codes, Bool, true, false, Option, none, some, List, [], ◌∷◌, ◌++◌,
  length, drop, is_empty, leb, ltb, text_eq, opt_text_eq, if◌then◌else◌,
}
use rustory.Prelude.Words.{trim, first_word}
use rustory.Errors.{Result, ok, err, anyhow, ◌>>=◌}
use rustory.Core.{Entry, TimeApi, UuidApi, new_with_id, import_entry_id}
use rustory.Storage.Schema.{Sqlite, LocalStore}
use rustory.Storage.Entries.{insert_entries_with_stats}
use rustory.HistoryImport.Parse.{HistoryRecord, HistoryShell, as_str, parse_history}

-- `regex::Regex` is its test `is_match`.
pub record ImportRequest : Type 0 where
  pub shell : HistoryShell
  pub content : Text
  pub limit : Option ℕ
  pub user_id : Text
  pub device_id : Text
  pub hostname : Text
  pub ignore_regex : Option (Text → Bool)

pub record ImportStats : Type 0 where
  pub received : ℕ
  pub inserted : ℕ
  pub ignored : ℕ
  pub skipped : ℕ

-- `now - Duration::seconds(delta)`.
abbrev pub Earlier : Type 0 → Type 0
Earlier T = T → ℕ → T

-- The records that a limit leaves: the last ones.
unfoldable pub last_records : Option ℕ → List HistoryRecord → List HistoryRecord
last_records none records = records
last_records (some n) records =
    if ltb n (length records) then drop (length records - n) records else records

abbrev pub matches : Option (Text → Bool) → Text → Bool
matches none cmd = false
matches (some is_match) cmd = is_match cmd

-- The three tests under which a record is skipped.
unfoldable pub is_skipped : ImportRequest → Text → Bool
is_skipped req cmd =
    if is_empty cmd
    then true
    else if opt_text_eq (first_word cmd) (some (codes "rr"))
    then true
    else matches req.ignore_regex cmd

abbrev pub ts_or_zero : Option ℤ → ℤ
ts_or_zero none = pos 0
ts_or_zero (some ts) = ts

-- The identifier of a record's entry.
unfoldable pub record_id : ⦃uuid : UuidApi⦄ → ImportRequest → HistoryRecord → Text
record_id req r =
    import_entry_id req.user_id req.device_id (as_str req.shell) (ts_or_zero r.ts_unix) (trim r.cmd)
      r.source_index

abbrev pub batch_size : ℕ
batch_size = 2000

-- The variables of the import loop.
pub record ImportState (T : Type 0) : Type 0 where
  pub store : LocalStore
  pub stats : ImportStats
  pub buf : List (Entry T)

-- How an import ends: its result, and the store then.
pub record ImportRun : Type 0 where
  pub result : Result ImportStats
  pub store : LocalStore

module _ {T : Type 0} ⦃time : TimeApi T⦄ where
  unfoldable pub filled_ts_unix : Earlier T → ℕ → ℕ → Option ℤ → T → ℤ
  filled_ts_unix earlier total index (some ts) now = ts
  filled_ts_unix earlier total index none now =
      time.unix_timestamp (earlier now (total - 1 - index))

  unfoldable pub record_entry : ⦃uuid : UuidApi⦄ → ImportRequest → HistoryRecord → T → Entry T
  record_entry req r ts = new_with_id (record_id req r) (record {
    device_id = req.device_id;
    user_id = req.user_id;
    ts = ts;
    cmd = trim r.cmd;
    cwd = codes "unknown";
    exit_code = pos 0;
    duration_ms = r.duration_ms;
    shell = as_str req.shell;
    hostname = req.hostname;
  })

  -- The timestamp of a record, and its entry.
  unfoldable pub import_record :
      ⦃uuid : UuidApi⦄ → Earlier T → ImportRequest → ℕ → T → ℕ → HistoryRecord → Result (Entry T)
  import_record earlier req total now i r =
      elim (time.from_unix_timestamp (filled_ts_unix earlier total i r.ts_unix now)) [
        | none ↦ err (anyhow "invalid unix timestamp")
        | some ts ↦ ok (record_entry req r ts)
      ]

  -- Insert the buffer, add up its numbers and clear it.
  unfoldable pub flush : ⦃sql : Sqlite⦄ → ImportState T → ImportState T
  flush s =
      let (store, stats) = insert_entries_with_stats s.store s.buf in
      record {
        store = store;
        stats = record {
          received = s.stats.received;
          inserted = s.stats.inserted + stats.inserted;
          ignored = s.stats.ignored + stats.ignored;
          skipped = s.stats.skipped;
        };
        buf = [];
      }

  -- buf.push(entry), and a flush when the buffer is full.
  unfoldable pub push_entry : ⦃sql : Sqlite⦄ → ImportState T → Entry T → ImportState T
  unfolding flush
  push_entry s e =
      if leb batch_size (length (s.buf ++ e ∷ []))
      then flush (record s { buf = s.buf ++ e ∷ [] })
      else record s { buf = s.buf ++ e ∷ [] }

  -- One round of the loop.
  unfoldable pub import_step :
      ⦃uuid : UuidApi⦄ ⦃sql : Sqlite⦄
      → Earlier T
      → ImportRequest
      → ℕ
      → T
      → ℕ
      → HistoryRecord
      → ImportState T
      → Result (ImportState T)
  unfolding is_skipped import_record push_entry
  import_step earlier req total now i r s =
      let received = record s { stats = record s.stats { received = s.stats.received + 1 } } in
      if is_skipped req (trim r.cmd)
      then ok (record s {
        stats = record s.stats { received = s.stats.received + 1; skipped = s.stats.skipped + 1 };
      })
      else import_record earlier req total now i r >>= λ e. ok (push_entry received e)

  unfoldable pub import_loop :
      ⦃uuid : UuidApi⦄ ⦃sql : Sqlite⦄
      → Earlier T
      → ImportRequest
      → ℕ
      → T
      → ℕ
      → List HistoryRecord
      → ImportState T
      → ImportRun
  unfolding import_step
  import_loop earlier req total now i [] s =
      let s' = if is_empty s.buf then s else flush s in
      record { result = ok s'.stats; store = s'.store }
  import_loop earlier req total now i (r ∷ rs) s = elim (import_step earlier req total now i r s) [
    | ok s' ↦ import_loop earlier req total now (i + 1) rs s'
    | err e ↦ record { result = err e; store = s.store }
  ]

  abbrev pub import_start : LocalStore → ImportState T
  import_start store = record {
    store = store;
    stats = record { received = 0; inserted = 0; ignored = 0; skipped = 0 };
    buf = [];
  }

  unfoldable pub import_into_store :
      ⦃uuid : UuidApi⦄ ⦃sql : Sqlite⦄ → Earlier T → T → LocalStore → ImportRequest → ImportRun
  unfolding last_records import_loop
  import_into_store earlier now store req =
      let records = last_records req.limit (parse_history req.shell req.content) in
      import_loop earlier req (length records) now 0 records (import_start store)
