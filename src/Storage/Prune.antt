-- ===== src/Storage/Prune.antt =====
-- src/storage.rs: counts of entries, and their removal by age (`prune_entries_older_than`).
pub mod Safety
pub mod Outcome
use rustory.Prelude.{
  ℕ, zero, suc, ℤ, pos, Text, Bool, true, false, Option, none, some, List, [], ◌∷◌, ◌-◌, length,
  keep_if, sort_by, leb, ltb, ltb_ℤ, leb_ℤ, as_i64, text_eq, if◌then◌else◌, ◌&&◌, ◌||◌, not, ◌==◌,
}
use rustory.Storage.Schema.{Row, LocalStore, limit_rows}
use rustory.Storage.Peers.{get_last_pushed_seq}

-- SELECT COALESCE(MAX(ingest_seq), 0)
unfoldable pub max_seq : List Row → ℕ
max_seq [] = 0
max_seq (r ∷ rows) = let m = max_seq rows in if ltb m r.ingest_seq then r.ingest_seq else m

unfoldable pub latest_ingest_seq : LocalStore → ℤ
unfolding max_seq
latest_ingest_seq db = pos (max_seq db.entries)

unfoldable pub count_entries_after_seq : LocalStore → ℤ → Option Text → ℕ
count_entries_after_seq db seq (some device_id) =
    length (keep_if (λ r. ltb_ℤ seq (pos r.ingest_seq) && text_eq r.device_id device_id) db.entries)
count_entries_after_seq db seq none =
    length (keep_if (λ r. ltb_ℤ seq (pos r.ingest_seq)) db.entries)

unfoldable pub count_pending_push_entries : LocalStore → Text → Option Text → ℕ
count_pending_push_entries db peer_id source_device_id =
    count_entries_after_seq db (get_last_pushed_seq db peer_id) source_device_id

-- MIN over the rows of a query; NULL if there are none.
unfoldable pub min_of : List ℤ → Option ℤ
min_of [] = none
min_of (v ∷ vs) = elim (min_of vs) [ none ↦ some v | some m ↦ some (if ltb_ℤ m v then m else v) ]

-- ORDER BY ingest_seq DESC
abbrev pub seq_ge : Row → Row → Bool
seq_ge r s = leb s.ingest_seq r.ingest_seq

seqs : List Row → List ℤ
seqs [] = []
seqs (r ∷ rows) = pos r.ingest_seq ∷ seqs rows

unfoldable pub prune_keep_floor_seq : LocalStore → ℕ → Option ℤ
unfolding min_of seqs sort_by
prune_keep_floor_seq db zero = none
prune_keep_floor_seq db (suc k) =
    min_of (seqs (limit_rows (as_i64 (suc k)) (sort_by seq_ge db.entries)))

pushed_seqs : List (Text × ℤ) → List ℤ
pushed_seqs [] = []
pushed_seqs ((id, v) ∷ rows) = v ∷ pushed_seqs rows

unfoldable pub prune_pushed_floor_seq : LocalStore → Option ℤ
unfolding min_of pushed_seqs
prune_pushed_floor_seq db = min_of (pushed_seqs db.peer_push_state)

-- The WHERE clauses of the four counts and of the four deletions.
unfoldable pub prune_where : ℤ → Option ℤ → Option ℤ → Row → Bool
prune_where cutoff (some keep_floor) (some pushed_floor) r =
    ltb_ℤ r.ts cutoff
    && (ltb_ℤ (pos r.ingest_seq) keep_floor && leb_ℤ (pos r.ingest_seq) pushed_floor)
prune_where cutoff (some keep_floor) none r =
    ltb_ℤ r.ts cutoff && ltb_ℤ (pos r.ingest_seq) keep_floor
prune_where cutoff none (some pushed_floor) r =
    ltb_ℤ r.ts cutoff && leb_ℤ (pos r.ingest_seq) pushed_floor
prune_where cutoff none none r = ltb_ℤ r.ts cutoff

pub record PruneStats : Type 0 where
  pub matched : ℕ
  pub deleted : ℕ

-- DELETE FROM entries, with the number of rows that go.
unfoldable pub delete_where : LocalStore → (Row → Bool) → LocalStore × ℕ
delete_where db p =
    (record db { entries = keep_if (λ r. not (p r)) db.entries }, length (keep_if p db.entries))

unfoldable pub prune_entries_older_than : LocalStore → ℤ → ℕ → Bool → LocalStore × PruneStats
unfolding delete_where
prune_entries_older_than db cutoff_unix keep_recent dry_run =
    let test =
      prune_where cutoff_unix (prune_keep_floor_seq db keep_recent) (prune_pushed_floor_seq db) in
    let matched = length (keep_if test db.entries) in
    if dry_run || matched == 0 then (db, record { matched = matched; deleted = 0 }) else (
      (delete_where db test).0,
      record { matched = matched; deleted = (delete_where db test).1 },
    )
