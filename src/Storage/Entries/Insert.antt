-- ===== src/Storage/Entries/Insert.antt =====
-- src/storage.rs: what `insert_entries_with_stats` does to the table `entries`.
use rustory.Prelude.{
  ℕ, suc, ◌+◌, ◌≤◌, ◌<◌, Text, true, false, List, [], ◌∷◌, ◌++◌, ◌≡◌, refl, sym, ap, ◌∙◌, ◌⊎◌, inl,
  inr, ◌||◌, arith, length, All, text_eq, text_eq_iff, text_eq_refl, Bool-cases,
}
use mathlib.Core.Path.{subst}
use mathlib.Core.List.{append-nil, append_assoc}
use rustory.Core.{Entry, TimeApi}
use rustory.Storage.Schema.{Sqlite, Row, LocalStore}
use rustory.Storage.Entries.{
  has_id, entry_row, insert_or_ignore, insert_loop, insert_entries_with_stats,
}
use rustory.Storage.Entries.Invariant.{
  IsWellFormed, IsOrdered, IsWellFormed-IsOrdered, IsAccepted, IsReadable, UniqueIds, Rising-append,
  Rising-upper, All-append, All-map,
}

pub has_id-append :
    (id : Text) (rows more : List Row)
    → has_id id (rows ++ more) ≡ (has_id id rows || has_id id more)
unfolding has_id
has_id-append id [] more = refl
has_id-append id (r ∷ rows) more = ground (arith, has_id-append id rows more)

text_eq_sym : (a b : Text) → text_eq a b ≡ text_eq b a
text_eq_sym a b = ground (arith, text_eq_iff a b, text_eq_iff b a)

UniqueIds-append :
    (rows : List Row) (x : Row)
    → UniqueIds rows
    → has_id x.entry_id rows ≡ false
    → UniqueIds (rows ++ x ∷ [])
unfolding has_id
UniqueIds-append [] x u h = (refl, tt)
UniqueIds-append (r ∷ rows) x u h = (
  unfold has_id in
      ground (arith, has_id-append r.entry_id rows (x ∷ []), text_eq_sym r.entry_id x.entry_id),
  UniqueIds-append rows x u.1 (ground arith),
)

-- Some entry of the list is the origin of the row.
abbrev pub IsFrom : {T : Type 0} → TimeApi T → List (Entry T) → Row → Type 0
IsFrom time [] r = ⊥
IsFrom time (e ∷ es) r = (entry_row ⦃time = time⦄ r.ingest_seq e ≡ r) ⊎ IsFrom time es r

-- `db'` is `db` with `count` rows added at the end of `entries`: each one under a key above all keys
-- so far and an entry id that `db` did not have, and made from one of the entries.
pub record IsGrown {T : Type 0} (time : TimeApi T) (es : List (Entry T)) (db db' : LocalStore)
    (count : ℕ) : Type 0 where
  pub added : List Row
  pub entries : db'.entries ≡ db.entries ++ added
  pub counted : length added ≡ count
  pub above : All (λ r. db.entries_mark < r.ingest_seq) added
  pub fresh : All (λ r. has_id r.entry_id db.entries ≡ false) added
  pub origin : All (IsFrom time es) added
  pub mark : db.entries_mark ≤ db'.entries_mark
  pub peer_state : db'.peer_state ≡ db.peer_state
  pub peer_push_state : db'.peer_push_state ≡ db.peer_push_state
  pub peer_book : db'.peer_book ≡ db.peer_book

module _ {T : Type 0} ⦃time : TimeApi T⦄ ⦃sql : Sqlite⦄ where
  insert_or_ignore-IsOrdered :
      (db : LocalStore) (e : Entry T) → IsOrdered db → IsOrdered (insert_or_ignore db e).0
  unfolding insert_or_ignore entry_row
  insert_or_ignore-IsOrdered db e w = elim (Bool-cases (has_id e.entry_id db.entries)) [
    | inl old ↦ rw old (record {
      rising = Rising-upper 0 _ _ db.entries (sql.le-ignored_rowid db.entries_mark) w.rising;
      unique = w.unique;
    })
    | inr new ↦ rw new (record {
      rising = Rising-append 0 _ db.entries _ w.rising (sql.lt-next_rowid db.entries_mark);
      unique = UniqueIds-append db.entries _ w.unique new;
    })
  ]

  insert_loop-IsOrdered :
      (db : LocalStore) (es : List (Entry T)) (n : ℕ)
      → IsOrdered db
      → IsOrdered (insert_loop db es n).0
  unfolding insert_loop
  insert_loop-IsOrdered db [] n w = w
  insert_loop-IsOrdered db (e ∷ es) n w =
      insert_loop-IsOrdered (insert_or_ignore db e).0 es (n + (insert_or_ignore db e).1)
        (insert_or_ignore-IsOrdered db e w)

  -- From a table with rising keys and unique ids, any batch leads to such a table.
  pub insert_entries-IsOrdered :
      (db : LocalStore) (es : List (Entry T))
      → IsOrdered db
      → IsOrdered (insert_entries_with_stats db es).0
  unfolding insert_entries_with_stats
  insert_entries-IsOrdered db [] w = w
  insert_entries-IsOrdered db (e ∷ es) w = insert_loop-IsOrdered db (e ∷ es) 0 w

  insert_or_ignore-IsReadable :
      (db : LocalStore) (e : Entry T)
      → All (IsReadable time) db.entries
      → IsAccepted time e
      → All (IsReadable time) (insert_or_ignore db e).0.entries
  unfolding insert_or_ignore entry_row
  insert_or_ignore-IsReadable db e w a = elim (Bool-cases (has_id e.entry_id db.entries)) [
    | inl old ↦ rw old w
    | inr new ↦ rw new (All-append (IsReadable time) db.entries _ w (a, tt))
  ]

  insert_loop-IsReadable :
      (db : LocalStore) (es : List (Entry T)) (n : ℕ)
      → All (IsReadable time) db.entries
      → All (IsAccepted time) es
      → All (IsReadable time) (insert_loop db es n).0.entries
  unfolding insert_loop
  insert_loop-IsReadable db [] n w a = w
  insert_loop-IsReadable db (e ∷ es) n w a =
      insert_loop-IsReadable (insert_or_ignore db e).0 es (n + (insert_or_ignore db e).1)
        (insert_or_ignore-IsReadable db e w a.0) a.1

  pub insert_entries-IsReadable :
      (db : LocalStore) (es : List (Entry T))
      → All (IsReadable time) db.entries
      → All (IsAccepted time) es
      → All (IsReadable time) (insert_entries_with_stats db es).0.entries
  unfolding insert_entries_with_stats
  insert_entries-IsReadable db [] w a = w
  insert_entries-IsReadable db (e ∷ es) w a = insert_loop-IsReadable db (e ∷ es) 0 w a

  -- From a table with rising keys up to its mark, unique entry ids and readable times, a batch of
  -- entries whose times have seconds that are accepted as a date leads to such a table.
  pub insert_entries-IsWellFormed :
      (db : LocalStore) (es : List (Entry T))
      → IsWellFormed time db
      → All (IsAccepted time) es
      → IsWellFormed time (insert_entries_with_stats db es).0
  insert_entries-IsWellFormed db es w a =
      let o = insert_entries-IsOrdered db es (IsWellFormed-IsOrdered time db w) in
      record {
        rising = o.rising;
        unique = o.unique;
        readable = insert_entries-IsReadable db es w.readable a;
      }

  -- One entry whose id is there adds nothing.
  IsGrown-old :
      (db : LocalStore) (e : Entry T) (es : List (Entry T)) (mark : ℕ) (db' : LocalStore) (k : ℕ)
      → db.entries_mark ≤ mark
      → IsGrown time es (record db { entries_mark = mark }) db' k
      → IsGrown time (e ∷ es) db db' k
  IsGrown-old db e es mark db' k h g = record {
    added = g.added;
    entries = g.entries;
    counted = g.counted;
    above = All-map (λ r (a : mark < r.ingest_seq). omega arith) g.added g.above;
    fresh = g.fresh;
    origin = All-map (λ r o. inr o) g.added g.origin;
    mark = omega (arith, g.mark);
    peer_state = g.peer_state;
    peer_push_state = g.peer_push_state;
    peer_book = g.peer_book;
  }

  -- One entry with a new id adds its row.
  IsGrown-new :
      (db : LocalStore) (e : Entry T) (es : List (Entry T)) (mark : ℕ) (db' : LocalStore) (k : ℕ)
      → db.entries_mark < mark
      → has_id e.entry_id db.entries ≡ false
      → IsGrown time es
          (record db { entries = db.entries ++ entry_row mark e ∷ []; entries_mark = mark })
          db'
          k
      → IsGrown time (e ∷ es) db db' (suc k)
  unfolding entry_row
  IsGrown-new db e es mark db' k h new g = record {
    added = entry_row mark e ∷ g.added;
    entries = g.entries ∙ append_assoc db.entries (entry_row mark e ∷ []) g.added;
    counted = ap suc g.counted;
    above = (h, All-map (λ r (a : mark < r.ingest_seq). omega arith) g.added g.above);
    fresh = (
      new,
      All-map
          (λ r f. ground (arith, has_id-append r.entry_id db.entries (entry_row mark e ∷ []), f))
          g.added g.fresh,
    );
    origin = (inl refl, All-map (λ r o. inr o) g.added g.origin);
    mark = omega (arith, g.mark);
    peer_state = g.peer_state;
    peer_push_state = g.peer_push_state;
    peer_book = g.peer_book;
  }

  IsGrown-nothing : (db : LocalStore) → IsGrown time [] db db 0
  IsGrown-nothing db = record {
    added = [];
    entries = sym (append-nil db.entries);
    counted = refl;
    above = tt;
    fresh = tt;
    origin = tt;
    mark = omega arith;
    peer_state = refl;
    peer_push_state = refl;
    peer_book = refl;
  }

  pub insert_or_ignore_old :
      (db : LocalStore) (e : Entry T)
      → has_id e.entry_id db.entries ≡ true
      → insert_or_ignore db e ≡ (record db { entries_mark = sql.ignored_rowid db.entries_mark }, 0)
  unfolding insert_or_ignore
  insert_or_ignore_old db e old = rw old

  insert_or_ignore_new :
      (db : LocalStore) (e : Entry T)
      → has_id e.entry_id db.entries ≡ false
      → insert_or_ignore db e ≡ (
        record db {
          entries = db.entries ++ entry_row (sql.next_rowid db.entries_mark) e ∷ [];
          entries_mark = sql.next_rowid db.entries_mark;
        },
        1,
      )
  unfolding insert_or_ignore
  insert_or_ignore_new db e new = rw new

  insert_loop-IsGrown :
      (db : LocalStore) (es : List (Entry T)) (n : ℕ)
      → (k : ℕ) × ((insert_loop db es n).1 ≡ n + k) × IsGrown time es db (insert_loop db es n).0 k
  unfolding insert_loop
  insert_loop-IsGrown db [] n = (0, omega arith, IsGrown-nothing db)
  insert_loop-IsGrown db (e ∷ es) n = elim (Bool-cases (has_id e.entry_id db.entries)) [
    | inl old ↦
        rw (insert_or_ignore_old db e old, insert_loop)
          (let r =
              insert_loop-IsGrown (record db { entries_mark = sql.ignored_rowid db.entries_mark })
                es (n + 0) in
            (
              r.0,
              omega (arith, r.1),
              IsGrown-old db e es _ _ r.0 (sql.le-ignored_rowid db.entries_mark) r.2,
            ))
    | inr new ↦
        rw (insert_or_ignore_new db e new, insert_loop)
          (let r =
              insert_loop-IsGrown
                (record db {
                  entries = db.entries ++ entry_row (sql.next_rowid db.entries_mark) e ∷ [];
                  entries_mark = sql.next_rowid db.entries_mark;
                })
                es (n + 1) in
            (
              suc r.0,
              omega (arith, r.1),
              IsGrown-new db e es _ _ r.0 (sql.lt-next_rowid db.entries_mark) new r.2,
            ))
  ]

  has_id-insert_loop :
      (id : Text) (db : LocalStore) (es : List (Entry T)) (n : ℕ)
      → has_id id db.entries ≡ true
      → has_id id (insert_loop db es n).0.entries ≡ true
  has_id-insert_loop id db es n h =
      let (k, c, g) = insert_loop-IsGrown db es n in
      rw (g.entries) (ground (arith, has_id-append id db.entries g.added, h))

  has_id-insert_or_ignore :
      (db : LocalStore) (e : Entry T) → has_id e.entry_id (insert_or_ignore db e).0.entries ≡ true
  has_id-insert_or_ignore db e = elim (Bool-cases (has_id e.entry_id db.entries)) [
    | inl old ↦ rw (insert_or_ignore_old db e old) old
    | inr new ↦ rw (insert_or_ignore_new db e new) (
        unfold has_id entry_row in
        ground (
          arith,
          has_id-append e.entry_id db.entries (entry_row (sql.next_rowid db.entries_mark) e ∷ []),
          text_eq_refl e.entry_id,
        ))
  ]

  insert_loop_present :
      (db : LocalStore) (es : List (Entry T)) (n : ℕ)
      → All (λ e. has_id e.entry_id (insert_loop db es n).0.entries ≡ true) es
  unfolding insert_loop
  insert_loop_present db [] n = tt
  insert_loop_present db (e ∷ es) n = (
    has_id-insert_loop e.entry_id (insert_or_ignore db e).0 es (n + (insert_or_ignore db e).1)
        (has_id-insert_or_ignore db e),
    insert_loop_present (insert_or_ignore db e).0 es (n + (insert_or_ignore db e).1),
  )

  pub insert_loop-le :
      (db : LocalStore) (es : List (Entry T)) (n : ℕ) → (insert_loop db es n).1 ≤ n + length es
  unfolding insert_loop
  insert_loop-le db [] n = omega arith
  insert_loop-le db (e ∷ es) n =
      omega
        (arith, insert_loop-le (insert_or_ignore db e).0 es (n + (insert_or_ignore db e).1), step)
    where
      step : (insert_or_ignore db e).1 ≤ 1
      step = unfold insert_or_ignore in ground arith

  insert_loop-IsGrown_zero :
      (db : LocalStore) (es : List (Entry T))
      → IsGrown time es db (insert_loop db es 0).0 (insert_loop db es 0).1
  insert_loop-IsGrown_zero db es =
      let (k, c, g) = insert_loop-IsGrown db es 0 in
      let count : (insert_loop db es 0).1 ≡ k = omega (arith, c) in
      subst (IsGrown time es db (insert_loop db es 0).0) (sym count) g

  -- Whatever the batch: `inserted` rows are added at the end of the table, each under a key above all
  -- keys so far, with an entry id that was absent and made from an entry of the batch; no other table
  -- changes; `inserted` and `ignored` sum up to the length of the batch; and afterwards every
  -- entry id of the batch is in the table.
  pub insert_entries_lem :
      (db : LocalStore) (es : List (Entry T))
      → let (db', stats) = insert_entries_with_stats db es in
        IsGrown time es db db' stats.inserted
        × (stats.inserted + stats.ignored ≡ length es)
        × All (λ e. has_id e.entry_id db'.entries ≡ true) es
  unfolding insert_entries_with_stats
  insert_entries_lem db [] = (IsGrown-nothing db, refl, tt)
  insert_entries_lem db (e ∷ es) = (
    insert_loop-IsGrown_zero db (e ∷ es),
    omega (arith, insert_loop-le db (e ∷ es) 0),
    insert_loop_present db (e ∷ es) 0,
  )
