-- ===== src/Storage/Entries/Invariant.antt =====
-- src/storage.rs: what a table `entries` of a store satisfies, and how the clauses of a query
-- (WHERE, ORDER BY ingest_seq, LIMIT) act on such a table.
use rustory.Prelude.{
  ℕ, zero, suc, ℤ, pos, negsuc, ◌≤◌, ◌<◌, Bool, false, some, List, [], ◌∷◌, ◌++◌, ◌≡◌, refl, arith,
  take, keep_if, sort_by, insert_by, All,
}
use rustory.Core.{Entry, TimeApi}
use rustory.Storage.Schema.{Row, LocalStore, limit_rows}
use rustory.Storage.Entries.{has_id, seq_le}

-- The keys of the rows rise from above `lo` up to `hi` at most.
abbrev pub Rising : ℕ → List Row → ℕ → Type 0
Rising lo [] hi = lo ≤ hi
Rising lo (r ∷ rows) hi = (lo < r.ingest_seq) × Rising r.ingest_seq rows hi

abbrev pub UniqueIds : List Row → Type 0
UniqueIds [] = Unit
UniqueIds (r ∷ rows) = (has_id r.entry_id rows ≡ false) × UniqueIds rows

abbrev pub IsReadable : {T : Type 0} → TimeApi T → Row → Type 0
IsReadable {T} time r = (t : T) × (time.from_unix_timestamp r.ts ≡ some t)

-- The seconds of the entry's time are a date again. An entry of the year 9999 with an offset to the
-- west of UTC is not such an entry: its seconds lie past the last date in UTC.
abbrev pub IsAccepted : {T : Type 0} → TimeApi T → Entry T → Type 0
IsAccepted {T} time e = (t : T) × (time.from_unix_timestamp (time.unix_timestamp e.ts) ≡ some t)

-- Keys rise up to the mark, and entry ids are unique.
pub record IsOrdered (db : LocalStore) : Type 0 where
  pub rising : Rising 0 db.entries db.entries_mark
  pub unique : UniqueIds db.entries

-- Keys rise up to the mark, entry ids are unique, and every stored time is a date.
pub record IsWellFormed {T : Type 0} (time : TimeApi T) (db : LocalStore) : Type 0 where
  pub rising : Rising 0 db.entries db.entries_mark
  pub unique : UniqueIds db.entries
  pub readable : All (IsReadable time) db.entries

pub IsWellFormed-IsOrdered :
    {T : Type 0} (time : TimeApi T) (db : LocalStore) → IsWellFormed time db → IsOrdered db
IsWellFormed-IsOrdered time db w = record { rising = w.rising; unique = w.unique }

pub Rising-lower :
    (lo lo' hi : ℕ) (rows : List Row) → lo' ≤ lo → Rising lo rows hi → Rising lo' rows hi
Rising-lower lo lo' hi [] h r = omega arith
Rising-lower lo lo' hi (x ∷ rows) h r = (omega arith, r.1)

pub Rising-upper :
    (lo hi hi' : ℕ) (rows : List Row) → hi ≤ hi' → Rising lo rows hi → Rising lo rows hi'
Rising-upper lo hi hi' [] h r = omega arith
Rising-upper lo hi hi' (x ∷ rows) h r = (r.0, Rising-upper x.ingest_seq hi hi' rows h r.1)

pub Rising-bounds : (lo hi : ℕ) (rows : List Row) → Rising lo rows hi → lo ≤ hi
Rising-bounds lo hi [] r = r
Rising-bounds lo hi (x ∷ rows) r = omega (arith, Rising-bounds x.ingest_seq hi rows r.1)

pub Rising-keep_if :
    (p : Row → Bool) (lo hi : ℕ) (rows : List Row)
    → Rising lo rows hi
    → Rising lo (keep_if p rows) hi
Rising-keep_if p lo hi [] r = r
Rising-keep_if p lo hi (x ∷ rows) r =
    let rest = Rising-keep_if p x.ingest_seq hi rows r.1 in
    ground (arith, rest, Rising-lower x.ingest_seq lo hi (keep_if p rows))

pub Rising-append :
    (lo hi : ℕ) (rows : List Row) (x : Row)
    → Rising lo rows hi
    → hi < x.ingest_seq
    → Rising lo (rows ++ x ∷ []) x.ingest_seq
Rising-append lo hi [] x r h = (omega arith, omega arith)
Rising-append lo hi (y ∷ rows) x r h = (r.0, Rising-append y.ingest_seq hi rows x r.1 h)

insert_by-Rising :
    (hi : ℕ) (x : Row) (rows : List Row)
    → Rising x.ingest_seq rows hi
    → insert_by seq_le x rows ≡ x ∷ rows
unfolding insert_by
insert_by-Rising hi x [] r = refl
insert_by-Rising hi x (y ∷ rows) r = ground arith

-- ORDER BY ingest_seq ASC leaves such rows as they stand.
pub sort_by-Rising : (lo hi : ℕ) (rows : List Row) → Rising lo rows hi → sort_by seq_le rows ≡ rows
unfolding sort_by
sort_by-Rising lo hi [] r = refl
sort_by-Rising lo hi (x ∷ rows) r =
    rw (sort_by-Rising x.ingest_seq hi rows r.1) (insert_by-Rising hi x rows r.1)

pub All-map {ℓ κ} :
    {A : Type ℓ} {P Q : A → Type κ} → ((x : A) → P x → Q x) → (xs : List A) → All P xs → All Q xs
All-map f [] h = tt
All-map f (x ∷ xs) h = (f x h.0, All-map f xs h.1)

module _ {ℓ κ} {A : Type ℓ} (P : A → Type κ) where
  pub All-keep_if : (p : A → Bool) (xs : List A) → All P xs → All P (keep_if p xs)
  All-keep_if p [] h = tt
  All-keep_if p (x ∷ xs) h = ground (arith, All-keep_if p xs h.1)

  pub All-take : (n : ℕ) (xs : List A) → All P xs → All P (take n xs)
  All-take zero xs h = tt
  All-take (suc n) [] h = tt
  All-take (suc n) (x ∷ xs) h = (h.0, All-take n xs h.1)

  pub All-append : (xs ys : List A) → All P xs → All P ys → All P (xs ++ ys)
  All-append [] ys hx hy = hy
  All-append (x ∷ xs) ys hx hy = (hx.0, All-append xs ys hx.1 hy)

pub All-limit_rows :
    {A : Type 0} (P : A → Type 0) (n : ℤ) (xs : List A) → All P xs → All P (limit_rows n xs)
All-limit_rows P (pos n) xs h = All-take P n xs h
All-limit_rows P (negsuc n) xs h = h
