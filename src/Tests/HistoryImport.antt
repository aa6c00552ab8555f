-- ===== src/Tests/HistoryImport.antt =====
-- The theorems on the import of histories, applied.
use rustory.Prelude.{
  ℕ, ◌+◌, pos, ℤ, pos, ◌+◌, ◌-ℤ◌, none, some, [], ◌∷◌, ◌≡◌, refl, arith, codes, length, text_eq,
  Text, opt_text_eq,
}
use rustory.Prelude.Words.{
  lines, lines_from, strip_cr, trim_end, trim, drop_back, drop_front, is_whitespace, strip_prefix,
  split_once, parse_i64, parse_number, parse_digits, first_word, until_space, show_u64, show_digits,
  show_i64,
}
use rustory.Errors.{ok}
use rustory.Core.{UuidApi, import_entry_id}
use rustory.Storage.Entries.{
  has_id, insert_or_ignore, insert_loop, insert_entries_with_stats, entry_row,
}
use rustory.HistoryImport.Parse.{
  zsh, as_str, parse_history, parse_zsh_history, zsh_loop, zsh_record, extended, thousandfold,
  parse_bash_history, bash_loop, bash_timestamp,
}
use rustory.HistoryImport.{
  ImportRequest, ImportStats, Earlier, filled_ts_unix, import_start, import_into_store, import_loop,
  import_step, is_skipped, import_record, record_entry, record_id, push_entry, flush, last_records,
}
use rustory.HistoryImport.Batches.{skipped_count, kept_entries, IsOutcome}
use rustory.HistoryImport.Outcome.{records_of, import_into_store-IsOutcome, import_adds_up}
use rustory.HistoryImport.Twice.{import_twice}
use rustory.HistoryImport.Extended.{extended_line, IsMillis, zsh_loop-extended_line}
use rustory.Tests.{seconds, counting, empty}

-- An identifier that is the name itself.
instance abbrev plain : UuidApi
plain = record { new_v5 = λ name. name }

abbrev back : Earlier ℤ
back t d = t -ℤ pos d

abbrev history : Text
history = codes ": 1700000000:2;echo a\n\nrr sync\nls -la  \n"

abbrev request : ImportRequest
request = record {
  shell = zsh;
  content = history;
  limit = some 5;
  user_id = codes "u1";
  device_id = codes "d1";
  hostname = codes "host";
  ignore_regex = none;
}

parsed_zsh :
    parse_zsh_history history
    ≡ record {
      source_index = 0;
      ts_unix = some (pos 1700000000);
      duration_ms = pos 2000;
      cmd = codes "echo a";
    }
      ∷ record { source_index = 1; ts_unix = none; duration_ms = pos 0; cmd = codes "rr sync" }
      ∷ record { source_index = 2; ts_unix = none; duration_ms = pos 0; cmd = codes "ls -la" }
      ∷ []
unfolding parse_zsh_history zsh_loop zsh_record extended thousandfold lines lines_from strip_cr
    trim_end drop_back is_whitespace strip_prefix split_once parse_i64 parse_number parse_digits
parsed_zsh = refl

parsed_bash :
    parse_bash_history (codes "#1700000000\necho a\r\n#x\n")
    ≡ record {
      source_index = 0;
      ts_unix = some (pos 1700000000);
      duration_ms = pos 0;
      cmd = codes "echo a";
    }
      ∷ record { source_index = 1; ts_unix = none; duration_ms = pos 0; cmd = codes "#x" }
      ∷ []
unfolding parse_bash_history bash_loop bash_timestamp lines lines_from strip_cr trim_end drop_back
    is_whitespace strip_prefix parse_i64 parse_number parse_digits
parsed_bash = refl

-- A line with a blank at its end.
abbrev timed_line : Text
timed_line = codes ": 17:2;a:b;c "

timed_line-trim_end : trim_end timed_line ≡ extended_line (codes "17") (codes "2") (codes "a:b;c")
unfolding trim_end drop_back is_whitespace
timed_line-trim_end = refl

two_seconds : parse_i64 (codes "2") ≡ some (pos 2)
unfolding parse_i64 parse_number parse_digits
two_seconds = refl

zsh_loop-extended_line_example :
    (d : ℕ) × IsMillis 2 d
    × (zsh_loop 4 (timed_line ∷ codes "ls" ∷ [])
        ≡ record {
          source_index = 4;
          ts_unix = parse_i64 (codes "17");
          duration_ms = pos d;
          cmd = codes "a:b;c";
        }
          ∷ zsh_loop (4 + 1) (codes "ls" ∷ []))
zsh_loop-extended_line_example =
    zsh_loop-extended_line 4 2 timed_line (codes "17") (codes "2") (codes "a:b;c") (codes "ls" ∷ [])
      timed_line-trim_end (omega arith, (omega arith, tt))
      (omega arith, (omega arith, (omega arith, (omega arith, tt)))) two_seconds

import_into_store-IsOutcome_example :
    IsOutcome
      (import_start empty)
      (length (records_of request))
      (skipped_count request (records_of request))
      (import_into_store back (pos 100) empty request)
      (kept_entries back request (length (records_of request)) (pos 100) 0 (records_of request))
import_into_store-IsOutcome_example = import_into_store-IsOutcome back (pos 100) empty request

abbrev numbers : ImportStats
numbers = record { received = 3; inserted = 2; ignored = 0; skipped = 1 }

imported : (import_into_store back (pos 100) empty request).result ≡ ok numbers
unfolding import_into_store last_records parse_history parse_zsh_history zsh_loop zsh_record
    extended thousandfold lines lines_from strip_cr trim_end drop_back is_whitespace strip_prefix
    split_once parse_i64 parse_number parse_digits import_loop import_step is_skipped trim
    drop_front first_word until_space opt_text_eq text_eq import_record filled_ts_unix ◌-ℤ◌
    record_entry record_id import_entry_id as_str show_i64 show_u64 show_digits push_entry flush
    insert_entries_with_stats insert_loop insert_or_ignore has_id entry_row
imported = refl

import_adds_up_example :
    (3 ≡ length (records_of request)) × (3 ≡ numbers.inserted + numbers.ignored + numbers.skipped)
import_adds_up_example = import_adds_up back (pos 100) empty request numbers imported

import_twice_example :
    ((import_into_store back
        (pos 200)
        (import_into_store back (pos 100) empty request).store
        request).result
      ≡ ok (record { received = 3; inserted = 0; ignored = 2 + 0; skipped = 1 }))
    × ((import_into_store back
          (pos 200)
          (import_into_store back (pos 100) empty request).store
          request).store.entries
        ≡ (import_into_store back (pos 100) empty request).store.entries)
import_twice_example =
    import_twice back (pos 100) (pos 200) empty request numbers imported (λ k h. (_, refl))
