-- ===== src/Tests.antt =====
-- Concrete instances of the interfaces, stores and far sides, on which the theorems are applied.
pub mod Storage
pub mod Sync
pub mod HttpRetry
pub mod HistoryImport
pub mod Tracker
pub mod Wire
pub mod Pages
pub mod Pushed
pub mod Transport
pub mod P2p
pub mod Cli
pub mod Search
use rustory.Prelude.{
  All, ℕ, suc, ℤ, pos, ◌≤◌, Text, Bool, true, false, Option, none, some, List, [], ◌∷◌, ◌++◌, ◌≡◌,
  refl, ◌⊎◌, inl, inr, arith, ltb, codes, String, if◌then◌else◌, Bool-cases,
}
use rustory.Core.{Entry, TimeApi}
use rustory.Storage.Schema.{Sqlite, AddrsJson, LocalStore}
use rustory.Storage.Entries.{insert_entries_with_stats}
use rustory.Storage.Entries.Invariant.{IsWellFormed, IsAccepted}
use rustory.Storage.Entries.Insert.{insert_entries-IsWellFormed}

pub some_timestamp : (s t : ℤ) → some s ≡ some t → t ≡ s
some_timestamp s t h = cc

-- Time as seconds, all of which are accepted.
instance abbrev pub seconds : TimeApi ℤ
seconds = record {
  unix_timestamp = λ s. s;
  from_unix_timestamp = some;
  timestamp_of = some_timestamp;
}

unfoldable pub lex_le : Text → Text → Bool
lex_le [] t = true
lex_le (a ∷ s) [] = false
lex_le (a ∷ s) (b ∷ t) = if ltb a b then true else if ltb b a then false else lex_le s t

pub lex_le_total : (s t : Text) → (lex_le s t ≡ true) ⊎ (lex_le t s ≡ true)
unfolding lex_le
lex_le_total [] t = inl refl
lex_le_total (a ∷ s) [] = inr refl
lex_le_total (a ∷ s) (b ∷ t) = ground (arith, lex_le_total s t)

pub lex_le_trans : (r s t : Text) → lex_le r s ≡ true → lex_le s t ≡ true → lex_le r t ≡ true
unfolding lex_le
lex_le_trans [] s t h k = refl
lex_le_trans (a ∷ r) [] t h k = cc
lex_le_trans (a ∷ r) (b ∷ s) [] h k = cc
lex_le_trans (a ∷ r) (b ∷ s) (c ∷ t) h k = ground (arith, lex_le_trans r s t)

-- Keys that grow by one, also past an ignored insert.
instance abbrev pub counting : Sqlite
counting = record {
  next_rowid = suc;
  lt-next_rowid = λ n. omega arith;
  ignored_rowid = suc;
  le-ignored_rowid = λ n. omega arith;
  text_le = lex_le;
  text_le_total = lex_le_total;
  text_le_trans = lex_le_trans;
}

abbrev pub entry : String → String → ℕ → Entry ℤ
entry id device ts = record {
  entry_id = codes id;
  device_id = codes device;
  user_id = codes "u";
  ts = pos ts;
  cmd = codes "ls";
  cwd = codes "/";
  exit_code = pos 0;
  duration_ms = pos 5;
  shell = codes "zsh";
  hostname = codes "h";
  version = codes "0.1.0";
}

abbrev pub three : List (Entry ℤ)
three = entry "a" "d1" 10 ∷ entry "b" "d2" 20 ∷ entry "c" "d1" 30 ∷ []

abbrev pub empty : LocalStore
empty = record {
  entries = [];
  entries_mark = 0;
  peer_state = [];
  peer_push_state = (codes "p", pos 1) ∷ [];
  peer_book = [];
}

abbrev pub far : LocalStore
far = (insert_entries_with_stats empty three).0

abbrev pub peer : Text
peer = codes "p"

pub empty-IsWellFormed : IsWellFormed seconds empty
empty-IsWellFormed = record { rising = omega arith; unique = tt; readable = tt }

pub three-IsAccepted : All (IsAccepted seconds) three
three-IsAccepted = ((_, refl), ((_, refl), ((_, refl), tt)))

pub far-IsWellFormed : IsWellFormed seconds far
far-IsWellFormed = insert_entries-IsWellFormed empty three empty-IsWellFormed three-IsAccepted
