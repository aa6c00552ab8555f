-- ===== src/Storage/Prune/Safety.antt =====
-- src/storage.rs: what `prune_entries_older_than` removes, and what it keeps.
use rustory.Prelude.{
  ℕ, zero, suc, ℤ, pos, Text, Bool, true, Option, none, some, List, [], ◌∷◌, ◌≡◌, refl, ◌↔◌, ◌&&◌,
  arith, All, sort_by, ltb_ℤ, leb_ℤ, ◌<ℤ◌, ◌≤ℤ◌, as_i64,
}
use rustory.Storage.Schema.{Row, LocalStore, limit_rows}
use rustory.Storage.Prune.{
  min_of, seqs, pushed_seqs, seq_ge, prune_where, prune_keep_floor_seq, prune_pushed_floor_seq,
}

-- Tests against an optional floor.
abbrev below : Option ℤ → ℤ → Bool
below none x = true
below (some m) x = ltb_ℤ x m

abbrev upto : Option ℤ → ℤ → Bool
upto none x = true
upto (some m) x = leb_ℤ x m

below-min_of : (x : ℤ) (vs : List ℤ) → (below (min_of vs) x ≡ true) ↔ All (λ v. x <ℤ v) vs
unfolding min_of
below-min_of x [] = (λ h. tt, λ h. refl)
below-min_of x (v ∷ vs) = ground (arith, below-min_of x vs)

upto-min_of : (x : ℤ) (vs : List ℤ) → (upto (min_of vs) x ≡ true) ↔ All (λ v. x ≤ℤ v) vs
unfolding min_of
upto-min_of x [] = (λ h. tt, λ h. refl)
upto-min_of x (v ∷ vs) = ground (arith, upto-min_of x vs)

prune_where_floors :
    (cutoff : ℤ) (keep pushed : Option ℤ) (r : Row)
    → prune_where cutoff keep pushed r
      ≡ (ltb_ℤ r.ts cutoff && (below keep (pos r.ingest_seq) && upto pushed (pos r.ingest_seq)))
unfolding prune_where
prune_where_floors cutoff keep pushed r = ground arith

-- The newest `keep_recent` rows, newest first.
abbrev pub newest : ℕ → LocalStore → List Row
newest keep_recent db = limit_rows (as_i64 keep_recent) (sort_by seq_ge db.entries)

All-seqs :
    (P : ℤ → Type 0) (rows : List Row) → All P (seqs rows) ↔ All (λ r. P (pos r.ingest_seq)) rows
unfolding seqs
All-seqs P [] = (λ h. tt, λ h. tt)
All-seqs P (r ∷ rows) = let (f, g) = All-seqs P rows in (λ h. (h.0, f h.1), λ h. (h.0, g h.1))

All-pushed_seqs :
    (P : ℤ → Type 0) (rows : List (Text × ℤ)) → All P (pushed_seqs rows) ↔ All (λ (id, v). P v) rows
unfolding pushed_seqs
All-pushed_seqs P [] = (λ h. tt, λ h. tt)
All-pushed_seqs P ((id, v) ∷ rows) =
    let (f, g) = All-pushed_seqs P rows in (λ h. (h.0, f h.1), λ h. (h.0, g h.1))

below-keep_floor :
    (db : LocalStore) (k : ℕ) (x : ℤ)
    → (below (prune_keep_floor_seq db k) x ≡ true) ↔ All (λ n. x <ℤ pos n.ingest_seq) (newest k db)
unfolding prune_keep_floor_seq
below-keep_floor db zero x = (λ h. tt, λ h. refl)
below-keep_floor db (suc k) x =
    let (f, g) = below-min_of x (seqs (newest (suc k) db)) in
    let (f', g') = All-seqs (λ v. x <ℤ v) (newest (suc k) db) in (λ h. f' (f h), λ h. g (g' h))

upto-pushed_floor :
    (db : LocalStore) (x : ℤ)
    → (upto (prune_pushed_floor_seq db) x ≡ true) ↔ All (λ (id, v). x ≤ℤ v) db.peer_push_state
unfolding prune_pushed_floor_seq
upto-pushed_floor db x =
    let (f, g) = upto-min_of x (pushed_seqs db.peer_push_state) in
    let (f', g') = All-pushed_seqs (λ v. x ≤ℤ v) db.peer_push_state in
    (λ h. f' (f h), λ h. g (g' h))

-- The rows that a prune selects: those older than the cutoff, under keys below those of the newest
-- `keep_recent` rows, and not past the push cursor of any peer that has one.
abbrev pub IsPrunable : LocalStore → ℤ → ℕ → Row → Type 0
IsPrunable db cutoff keep_recent r =
    (r.ts <ℤ cutoff)
    × All (λ n. pos r.ingest_seq <ℤ pos n.ingest_seq) (newest keep_recent db)
    × All (λ (id, v). pos r.ingest_seq ≤ℤ v) db.peer_push_state

abbrev pub prune_test : LocalStore → ℤ → ℕ → Row → Bool
prune_test db cutoff keep_recent =
    prune_where cutoff (prune_keep_floor_seq db keep_recent) (prune_pushed_floor_seq db)

-- The WHERE clause, whichever of its four forms is taken, selects just these rows.
pub prune_test-IsPrunable :
    (db : LocalStore) (cutoff : ℤ) (k : ℕ) (r : Row)
    → (prune_test db cutoff k r ≡ true) ↔ IsPrunable db cutoff k r
prune_test-IsPrunable db cutoff k r = ground (
  arith,
  prune_where_floors cutoff (prune_keep_floor_seq db k) (prune_pushed_floor_seq db) r,
  below-keep_floor db k (pos r.ingest_seq),
  upto-pushed_floor db (pos r.ingest_seq),
)
