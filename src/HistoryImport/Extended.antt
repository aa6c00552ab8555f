-- ===== src/HistoryImport/Extended.antt =====
-- src/history_import.rs: the lines of zsh's extended history.
use rustory.Prelude.{
  ℕ, pos, ◌+◌, ◌*◌, ◌≤◌, ◌<◌, ◌⊎◌, List, Bool-cases, inl, inr, ltb, arith, Text, codes, some, ◌∷◌,
  ◌++◌, ◌≡◌, ◌≢◌, ap, ◌∙◌, is_empty, false, refl, All,
}
use rustory.Prelude.Words.{split_once-append, strip_prefix, parse_i64, trim_end}
use rustory.HistoryImport.Parse.{extended, zsh_record, zsh_loop, thousandfold}

abbrev pub colon : ℕ
colon = 58

abbrev pub semicolon : ℕ
semicolon = 59

-- The line `: <epoch>:<duration>;<command>`.
abbrev pub extended_line : Text → Text → Text → Text
extended_line ts_s dur_s cmd = codes ": " ++ ((ts_s ++ colon ∷ dur_s) ++ semicolon ∷ cmd)

strip_prefix-line : (rest : Text) → strip_prefix (codes ": ") (codes ": " ++ rest) ≡ some rest
unfolding strip_prefix
strip_prefix-line rest = refl

extended_parts :
    (ts_s dur_s cmd : Text)
    → All (λ d. d ≢ colon) ts_s
    → All (λ d. d ≢ semicolon) (ts_s ++ colon ∷ dur_s)
    → extended (extended_line ts_s dur_s cmd) ≡ some (ts_s, (dur_s, cmd))
unfolding extended
extended_parts ts_s dur_s cmd h k =
    rw
      (
        strip_prefix-line ((ts_s ++ colon ∷ dur_s) ++ semicolon ∷ cmd),
        split_once-append semicolon (ts_s ++ colon ∷ dur_s) cmd k,
        split_once-append colon ts_s dur_s h,
        extended,
      )
      refl

-- A number of milliseconds, up to the largest of 64 bits, for a number of seconds.
abbrev pub IsMillis : ℕ → ℕ → Type 0
IsMillis seconds d =
    ((seconds * 1000 ≤ 9_223_372_036_854_775_807) × (d ≡ seconds * 1000))
    ⊎ ((9_223_372_036_854_775_807 < seconds * 1000) × (d ≡ 9_223_372_036_854_775_807))

thousandfold-IsMillis : (n : ℕ) → (d : ℕ) × (thousandfold (pos n) ≡ pos d) × IsMillis n d
unfolding thousandfold
thousandfold-IsMillis n = elim (Bool-cases (ltb (n * 1000) 9_223_372_036_854_775_808)) [
  | inl fits ↦ (n * 1000, rw fits refl, inl (ground arith, refl))
  | inr over ↦ (9_223_372_036_854_775_807, rw over refl, inr (ground arith, refl))
]

timed_record :
    (i n d : ℕ) (ts_s dur_s cmd : Text)
    → All (λ d. d ≢ colon) ts_s
    → All (λ d. d ≢ semicolon) (ts_s ++ colon ∷ dur_s)
    → parse_i64 dur_s ≡ some (pos n)
    → thousandfold (pos n) ≡ pos d
    → zsh_record i (extended_line ts_s dur_s cmd)
      ≡ record { source_index = i; ts_unix = parse_i64 ts_s; duration_ms = pos d; cmd = cmd }
unfolding zsh_record
timed_record i n d ts_s dur_s cmd h k number millis =
    rw (extended_parts ts_s dur_s cmd h k, zsh_record, number, millis) refl

-- A line of a zsh history that reads, without the white space at its end, `: <epoch>:<duration>;` and
-- a command, whose epoch has neither separator and whose duration is a number of seconds with no
-- semicolon, is one record: with this command whatever it contains, the number that the epoch is, if
-- it is one, and the duration in milliseconds, or the largest number of 64 bits where this is
-- larger. The records of the lines behind it follow, numbered from the next number on.
pub zsh_loop-extended_line :
    (i n : ℕ) (raw ts_s dur_s cmd : Text) (ls : List Text)
    → trim_end raw ≡ extended_line ts_s dur_s cmd
    → All (λ d. d ≢ colon) ts_s
    → All (λ d. d ≢ semicolon) (ts_s ++ colon ∷ dur_s)
    → parse_i64 dur_s ≡ some (pos n)
    → (d : ℕ) × IsMillis n d
      × (zsh_loop i (raw ∷ ls)
          ≡ record { source_index = i; ts_unix = parse_i64 ts_s; duration_ms = pos d; cmd = cmd }
            ∷ zsh_loop (i + 1) ls)
unfolding zsh_loop
zsh_loop-extended_line i n raw ts_s dur_s cmd ls line h k number =
    let full : is_empty (trim_end raw) ≡ false = ap is_empty line in
    let (d, millis, is_millis) = thousandfold-IsMillis n in
    (
      d,
      is_millis,
      rw (zsh_loop, full)
          (ap (λ l. zsh_record i l ∷ zsh_loop (i + 1) ls) line
            ∙ ap (λ r. r ∷ zsh_loop (i + 1) ls)
                (timed_record i n d ts_s dur_s cmd h k number millis)),
    )
