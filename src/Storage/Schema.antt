-- ===== src/Storage/Schema.antt =====
-- src/storage.rs: the tables of `init_schema` and their rows, and what the program relies on in
-- SQLite and in the JSON of an address list.
use rustory.Prelude.{
  ℕ, ℤ, pos, negsuc, Text, ◌≤◌, ◌<◌, ◌≡◌, Bool, true, Option, none, some, List, [], ◌⊎◌, take,
}

-- SQLite: how AUTOINCREMENT picks the next key from the largest key so far, what an ignored insert
-- leaves of that mark, and the binary order of texts.
pub record Sqlite : Type 0 where
  pub next_rowid : ℕ → ℕ
  pub lt-next_rowid : (n : ℕ) → n < next_rowid n
  pub ignored_rowid : ℕ → ℕ
  pub le-ignored_rowid : (n : ℕ) → n ≤ ignored_rowid n
  pub text_le : Text → Text → Bool
  pub text_le_total : (a b : Text) → (text_le a b ≡ true) ⊎ (text_le b a ≡ true)
  pub text_le_trans : (a b c : Text) → text_le a b ≡ true → text_le b c ≡ true → text_le a c ≡ true

-- `serde_json` on the address list of a peer.
pub record AddrsJson : Type 0 where
  pub to_string : List Text → Text
  pub from_str : Text → Option (List Text)
  pub from_str-to_string : (a : List Text) → from_str (to_string a) ≡ some a

-- A row of the table `entries`.
pub record Row : Type 0 where
  pub ingest_seq : ℕ
  pub entry_id : Text
  pub device_id : Text
  pub user_id : Text
  pub ts : ℤ
  pub cmd : Text
  pub cwd : Text
  pub exit_code : ℤ
  pub duration_ms : ℤ
  pub shell : Text
  pub hostname : Text
  pub version : Text

-- A row of the table `peer_book`.
pub record PeerBookRow : Type 0 where
  pub peer_id : Text
  pub addrs_json : Text
  pub user_id : Option Text
  pub device_id : Option Text
  pub last_seen : ℤ

-- The tables; `entries_mark` is the largest key that `entries` has had. Rows stand in the order in
-- which they were inserted.
pub record LocalStore : Type 0 where
  pub entries : List Row
  pub entries_mark : ℕ
  pub peer_state : List (Text × ℤ)
  pub peer_push_state : List (Text × ℤ)
  pub peer_book : List PeerBookRow

-- CREATE TABLE IF NOT EXISTS: a database that has the tables keeps them.
unfoldable pub init_schema : Option LocalStore → LocalStore
init_schema (some db) = db
init_schema none = record {
  entries = [];
  entries_mark = 0;
  peer_state = [];
  peer_push_state = [];
  peer_book = [];
}

-- LIMIT: a negative bound is none.
abbrev pub limit_rows : {A : Type 0} → ℤ → List A → List A
limit_rows (pos n) rows = take n rows
limit_rows (negsuc n) rows = rows
