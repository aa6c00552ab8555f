-- ===== src/HistoryImport/Parse.antt =====
-- src/history_import.rs: the records of a history file (`parse_history` and its two parsers).
use rustory.Prelude.{
  ℕ, suc, ◌+◌, ◌-◌, ◌*◌, ◌≡◌, refl, ℤ, pos, negsuc, Text, codes, true, false, Option, none, some,
  List, [], ◌∷◌, is_empty, ltb, leb, text_eq, if◌then◌else◌, Bool-cases, Option-cases, inl, inr,
}
use rustory.Prelude.Words.{lines, trim_end, strip_prefix, split_once, parse_i64}
use rustory.Errors.{Result, ok, err, anyhow}

pub record HistoryRecord : Type 0 where
  pub source_index : ℕ
  pub ts_unix : Option ℤ
  pub duration_ms : ℤ
  pub cmd : Text

pub data HistoryShell : Type 0 where
  bash : HistoryShell
  zsh : HistoryShell

unfoldable pub parse_shell : Text → Result HistoryShell
parse_shell value =
    if text_eq value (codes "bash")
    then ok bash
    else if text_eq value (codes "zsh")
    then ok zsh
    else err (anyhow "unsupported shell")

unfoldable pub as_str : HistoryShell → Text
as_str bash = codes "bash"
as_str zsh = codes "zsh"

-- `saturating_mul(1000)` on 64 bits.
unfoldable pub thousandfold : ℤ → ℤ
thousandfold (pos n) =
    if ltb (n * 1000) 9_223_372_036_854_775_808
    then pos (n * 1000)
    else pos 9_223_372_036_854_775_807
thousandfold (negsuc n) =
    if leb (suc n * 1000) 9_223_372_036_854_775_808
    then negsuc (suc n * 1000 - 1)
    else negsuc 9_223_372_036_854_775_807

-- `: <epoch>:<duration>;<command>`: the three parts.
unfoldable pub extended : Text → Option (Text × (Text × Text))
extended line = elim (strip_prefix (codes ": ") line) [
  | none ↦ none
  | some rest ↦ elim (split_once 59 rest) [
    | none ↦ none
    | some (meta, after) ↦ elim (split_once 58 meta) [
      | none ↦ none
      | some (ts_s, dur_s) ↦ some (ts_s, (dur_s, after))
    ]
  ]
]

abbrev pub duration_of : Option ℤ → ℤ
duration_of none = pos 0
duration_of (some dur) = thousandfold dur

unfoldable pub zsh_record : ℕ → Text → HistoryRecord
unfolding extended thousandfold
zsh_record cmd_index line = elim (extended line) [
  | none ↦ record { source_index = cmd_index; ts_unix = none; duration_ms = pos 0; cmd = line }
  | some (ts_s, (dur_s, after)) ↦ record {
    source_index = cmd_index;
    ts_unix = parse_i64 ts_s;
    duration_ms = duration_of (parse_i64 dur_s);
    cmd = after;
  }
]

unfoldable pub zsh_loop : ℕ → List Text → List HistoryRecord
unfolding zsh_record
zsh_loop cmd_index [] = []
zsh_loop cmd_index (raw ∷ ls) = elim (is_empty (trim_end raw)) [
  | true ↦ zsh_loop cmd_index ls
  | false ↦ zsh_record cmd_index (trim_end raw) ∷ zsh_loop (cmd_index + 1) ls
]

unfoldable pub parse_zsh_history : Text → List HistoryRecord
unfolding zsh_loop
parse_zsh_history content = zsh_loop 0 (lines content)

-- `#<epoch>`
unfoldable pub bash_timestamp : Text → Option ℤ
bash_timestamp line = elim (strip_prefix (codes "#") line) [
  | none ↦ none
  | some rest ↦ parse_i64 rest
]

unfoldable pub bash_loop : Option ℤ → ℕ → List Text → List HistoryRecord
unfolding bash_timestamp
bash_loop next_ts cmd_index [] = []
bash_loop next_ts cmd_index (raw ∷ ls) = elim (is_empty (trim_end raw)) [
  | true ↦ bash_loop next_ts cmd_index ls
  | false ↦ elim (bash_timestamp (trim_end raw)) [
    | some ts ↦ bash_loop (some ts) cmd_index ls
    | none ↦
        record {
          source_index = cmd_index;
          ts_unix = next_ts;
          duration_ms = pos 0;
          cmd = trim_end raw;
        }
        ∷ bash_loop none (cmd_index + 1) ls
  ]
]

unfoldable pub parse_bash_history : Text → List HistoryRecord
unfolding bash_loop
parse_bash_history content = bash_loop none 0 (lines content)

unfoldable pub parse_history : HistoryShell → Text → List HistoryRecord
parse_history bash content = parse_bash_history content
parse_history zsh content = parse_zsh_history content

-- The source indices count the records from `i` on.
abbrev pub IsNumbered : ℕ → List HistoryRecord → Type 0
IsNumbered i [] = Unit
IsNumbered i (r ∷ rs) = (r.source_index ≡ i) × IsNumbered (i + 1) rs

zsh_record-source_index : (i : ℕ) (line : Text) → (zsh_record i line).source_index ≡ i
unfolding zsh_record
zsh_record-source_index i line = elim (Option-cases (extended line)) [
  | inl plain ↦ rw (plain, zsh_record) refl
  | inr (parts, e) ↦ rw (e, zsh_record) refl
]

zsh_loop-IsNumbered : (i : ℕ) (ls : List Text) → IsNumbered i (zsh_loop i ls)
unfolding zsh_loop
zsh_loop-IsNumbered i [] = tt
zsh_loop-IsNumbered i (raw ∷ ls) = elim (Bool-cases (is_empty (trim_end raw))) [
  | inl blank ↦ rw (blank, IsNumbered) (zsh_loop-IsNumbered i ls)
  | inr full ↦
      rw (full, IsNumbered)
        (zsh_record-source_index i (trim_end raw), zsh_loop-IsNumbered (i + 1) ls)
]

bash_loop-IsNumbered :
    (next_ts : Option ℤ) (i : ℕ) (ls : List Text) → IsNumbered i (bash_loop next_ts i ls)
unfolding bash_loop
bash_loop-IsNumbered next_ts i [] = tt
bash_loop-IsNumbered next_ts i (raw ∷ ls) = elim (Bool-cases (is_empty (trim_end raw))) [
  | inl blank ↦ rw (blank, IsNumbered) (bash_loop-IsNumbered next_ts i ls)
  | inr full ↦ elim (Option-cases (bash_timestamp (trim_end raw))) [
    | inl command ↦ rw (full, command, IsNumbered) (refl, bash_loop-IsNumbered none (i + 1) ls)
    | inr (ts, e) ↦ rw (full, e, IsNumbered) (bash_loop-IsNumbered (some ts) i ls)
  ]
]

-- The records of either parser carry their positions as source indices, from 0 on.
pub parse_history-IsNumbered :
    (shell : HistoryShell) (content : Text) → IsNumbered 0 (parse_history shell content)
unfolding parse_history parse_bash_history parse_zsh_history
parse_history-IsNumbered bash content = bash_loop-IsNumbered none 0 (lines content)
parse_history-IsNumbered zsh content = zsh_loop-IsNumbered 0 (lines content)
