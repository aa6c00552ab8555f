-- ===== src/HistoryImport/Times.antt =====
-- src/history_import.rs: the times of records without a time (`filled_ts_unix`).
use rustory.Prelude.{ℕ, pos, ◌-ℤ◌, ◌≡◌}
use rustory.Core.{TimeApi}
use rustory.HistoryImport.{Earlier}

-- Going back by a number of seconds.
abbrev pub IsEarlier : {T : Type 0} → TimeApi T → Earlier T → Type 0
IsEarlier {T} time earlier =
    (t : T) (d : ℕ) → time.unix_timestamp (earlier t d) ≡ time.unix_timestamp t -ℤ pos d
