-- ===== src/Storage/Prune/Outcome.antt =====
-- src/storage.rs: the rows and the numbers that `prune_entries_older_than` leaves.
use mathlib.Core.List.{Mem, mem-cons, mem-cons_self, mem-cons_of_mem, not-mem-nil, Mem-prop}
use mathlib.Core.Logic.Or
use rustory.Prelude.{
  ℕ, zero, suc, ℤ, pos, negsuc, ◌+◌, Text, Bool, true, false, Option, none, some, List, [], ◌∷◌,
  ◌≡◌, refl, ap, ◌↔◌, ◌&&◌, not, arith, length, All, take, keep_if, sort_by, insert_by, ltb_ℤ, ◌<ℤ◌,
  ◌≤ℤ◌, as_i64, Bool-cases, inl, inr, text_eq,
}
use rustory.Core.{TimeApi}
use rustory.Storage.Schema.{Row, LocalStore, limit_rows}
use rustory.Storage.Entries.{has_id}
use rustory.Storage.Entries.Invariant.{
  IsWellFormed, IsReadable, UniqueIds, Rising-keep_if, All-keep_if,
}
use rustory.Storage.Peers.{get_last_pushed_seq, get_last_pushed_seq_opt, select_peer}
use rustory.Storage.Prune.{
  seq_ge, prune_entries_older_than, count_pending_push_entries, count_entries_after_seq,
}
use rustory.Storage.Prune.Safety.{IsPrunable, newest, prune_test, prune_test-IsPrunable}

module _ {A : Type 0} where
  keep_if_none :
      (p : A → Bool) (xs : List A) → length (keep_if p xs) ≡ 0 → keep_if (λ x. not (p x)) xs ≡ xs
  keep_if_none p [] h = refl
  keep_if_none p (x ∷ xs) h = ground (arith, keep_if_none p xs)

  length-keep_if-not :
      (p : A → Bool) (xs : List A)
      → length (keep_if p xs) + length (keep_if (λ x. not (p x)) xs) ≡ length xs
  length-keep_if-not p [] = omega arith
  length-keep_if-not p (x ∷ xs) = ground (arith, length-keep_if-not p xs)

  mem-keep_if : (p : A → Bool) (a : A) (xs : List A) → Mem a xs → p a ≡ true → Mem a (keep_if p xs)
  mem-keep_if p a [] m h = absurd (not-mem-nil m)
  mem-keep_if p a (x ∷ xs) m h =
      Or.elim Mem-prop (mem-cons.0 m)
        (λ e. elim (Bool-cases (p x)) [
          | inl t ↦ rw t (rw e mem-cons_self)
          | inr f ↦ absurd (ground (arith, ap p e))
        ])
        (λ rest. elim (Bool-cases (p x)) [
          | inl t ↦ rw t (mem-cons_of_mem x (mem-keep_if p a xs rest h))
          | inr f ↦ rw f (mem-keep_if p a xs rest h)
        ])

  mem_of_mem-keep_if :
      (p : A → Bool) (a : A) (xs : List A) → Mem a (keep_if p xs) → Mem a xs × (p a ≡ true)
  mem_of_mem-keep_if p a [] m = absurd (not-mem-nil m)
  mem_of_mem-keep_if p a (x ∷ xs) m = elim (Bool-cases (p x)) [
    | inl t ↦
        let m' : Mem a (x ∷ keep_if p xs) = rw (t, keep_if) at m in
        let prop : IsProp (Mem a (x ∷ xs) × (p a ≡ true)) = hlevel Mem-prop in
        Or.elim prop (mem-cons.0 m') (λ e. (rw e mem-cons_self, rw e t))
          (λ rest. let r = mem_of_mem-keep_if p a xs rest in (mem-cons_of_mem x r.0, r.1))
    | inr f ↦
        let r = mem_of_mem-keep_if p a xs (rw (f, keep_if) at m) in (mem-cons_of_mem x r.0, r.1)
  ]

-- The store after a prune that is no dry run.
prune_state :
    (db : LocalStore) (cutoff : ℤ) (k : ℕ)
    → (prune_entries_older_than db cutoff k false).0
      ≡ record db { entries = keep_if (λ r. not (prune_test db cutoff k r)) db.entries }
unfolding prune_entries_older_than
prune_state db cutoff k = ground (arith, keep_if_none (prune_test db cutoff k) db.entries)

prune_entries :
    (db : LocalStore) (cutoff : ℤ) (k : ℕ)
    → (prune_entries_older_than db cutoff k false).0.entries
      ≡ keep_if (λ r. not (prune_test db cutoff k r)) db.entries
prune_entries db cutoff k = ap (λ d. d.entries) (prune_state db cutoff k)

-- A dry run changes nothing and deletes nothing; it counts the rows that the prune itself would
-- delete. The prune itself deletes as many rows as it counts, and leaves the other tables alone.
pub prune_stats :
    (db : LocalStore) (cutoff : ℤ) (k : ℕ)
    → let dry = prune_entries_older_than db cutoff k true in
      let real = prune_entries_older_than db cutoff k false in
      (dry.0 ≡ db)
      × (dry.1.deleted ≡ 0)
      × (dry.1.matched ≡ real.1.deleted)
      × (real.1.matched ≡ real.1.deleted)
      × (real.1.deleted + length real.0.entries ≡ length db.entries)
      × (real.0.peer_push_state ≡ db.peer_push_state)
      × (real.0.peer_state ≡ db.peer_state)
      × (real.0.peer_book ≡ db.peer_book)
      × (real.0.entries_mark ≡ db.entries_mark)
unfolding prune_entries_older_than
prune_stats db cutoff k = ground (arith, length-keep_if-not (prune_test db cutoff k) db.entries)

-- A row is in the table after a prune exactly when it was there before and is not prunable: not
-- older than the cutoff, or not below the newest `keep_recent` rows, or past the push cursor of some
-- peer.
pub prune_exact :
    (db : LocalStore) (cutoff : ℤ) (k : ℕ) (r : Row)
    → Mem r (prune_entries_older_than db cutoff k false).0.entries
      ↔ (Mem r db.entries × (¬ IsPrunable db cutoff k r))
prune_exact db cutoff k r =
    let (f, g) = prune_test-IsPrunable db cutoff k r in
    rw (prune_entries db cutoff k) (
      (λ m.
          let (old, kept) =
            mem_of_mem-keep_if (λ x. not (prune_test db cutoff k x)) r db.entries m in
          (old, λ h. ground (arith, g h, kept))),
      (λ (m, n).
          mem-keep_if (λ x. not (prune_test db cutoff k x)) r db.entries m
            (elim (Bool-cases (prune_test db cutoff k r)) [
              | inl t ↦ absurd (n (f t))
              | inr t ↦ rw t
            ])),
    )

mem_of_mem-insert_by :
    {A : Type 0} (le : A → A → Bool) (a x : A) (xs : List A)
    → Mem a (insert_by le x xs)
    → Mem a (x ∷ xs)
unfolding insert_by
mem_of_mem-insert_by le a x [] m = m
mem_of_mem-insert_by le a x (y ∷ xs) m = elim (Bool-cases (le x y)) [
  | inl t ↦ rw (t, insert_by) at m
  | inr f ↦
      let m' : Mem a (y ∷ insert_by le x xs) = rw (f, insert_by) at m in
      Or.elim Mem-prop (mem-cons.0 m') (λ e. mem-cons_of_mem x (rw e mem-cons_self))
        (λ rest.
          Or.elim Mem-prop (mem-cons.0 (mem_of_mem-insert_by le a x xs rest))
            (λ e. rw e mem-cons_self) (λ old. mem-cons_of_mem x (mem-cons_of_mem y old)))
]

mem_of_mem-sort_by :
    {A : Type 0} (le : A → A → Bool) (a : A) (xs : List A) → Mem a (sort_by le xs) → Mem a xs
unfolding sort_by
mem_of_mem-sort_by le a [] m = m
mem_of_mem-sort_by le a (x ∷ xs) m =
    Or.elim Mem-prop (mem-cons.0 (mem_of_mem-insert_by le a x (sort_by le xs) m))
      (λ e. rw e mem-cons_self) (λ rest. mem-cons_of_mem x (mem_of_mem-sort_by le a xs rest))

mem_of_mem-take : {A : Type 0} (n : ℕ) (a : A) (xs : List A) → Mem a (take n xs) → Mem a xs
mem_of_mem-take zero a xs m = absurd (not-mem-nil m)
mem_of_mem-take (suc n) a [] m = m
mem_of_mem-take (suc n) a (x ∷ xs) m =
    Or.elim Mem-prop (mem-cons.0 m) (λ e. rw e mem-cons_self)
      (λ rest. mem-cons_of_mem x (mem_of_mem-take n a xs rest))

mem_of_mem-limit_rows :
    {A : Type 0} (n : ℤ) (a : A) (xs : List A) → Mem a (limit_rows n xs) → Mem a xs
mem_of_mem-limit_rows (pos n) a xs m = mem_of_mem-take n a xs m
mem_of_mem-limit_rows (negsuc n) a xs m = m

not_below_self :
    (a : Row) (rows : List Row)
    → Mem a rows
    → ¬ All (λ n. pos a.ingest_seq <ℤ pos n.ingest_seq) rows
not_below_self a [] m h = not-mem-nil m
not_below_self a (x ∷ rows) m h =
    Or.elim (λ p q. absurd p) (mem-cons.0 m)
      (λ e. omega (arith, h.0, ap (λ (r : Row). r.ingest_seq) e))
      (λ rest. not_below_self a rows rest h.1)

-- Every one of the newest `keep_recent` rows is still there after a prune.
pub prune_keeps_newest :
    (db : LocalStore) (cutoff : ℤ) (k : ℕ) (r : Row)
    → Mem r (newest k db)
    → Mem r (prune_entries_older_than db cutoff k false).0.entries
prune_keeps_newest db cutoff k r m = (prune_exact db cutoff k r).1 (
  mem_of_mem-sort_by seq_ge r db.entries (mem_of_mem-limit_rows (as_i64 k) r _ m),
  λ h. not_below_self r (newest k db) m h.1,
)

select_peer-All :
    (x v : ℤ) (peer_id : Text) (rows : List (Text × ℤ))
    → select_peer peer_id rows ≡ some v
    → All (λ (id, w). x ≤ℤ w) rows
    → x ≤ℤ v
unfolding select_peer
select_peer-All x v peer_id [] e h = cc
select_peer-All x v peer_id ((id, w) ∷ rows) e h =
    ground (arith, select_peer-All x v peer_id rows, h.0, h.1)

keep_if-keep_if :
    {A : Type 0} (p q : A → Bool)
    → ((x : A) → p x ≡ true → q x ≡ true)
    → (xs : List A) → keep_if p (keep_if q xs) ≡ keep_if p xs
keep_if-keep_if p q h [] = refl
keep_if-keep_if p q h (x ∷ xs) = ground (arith, h x, keep_if-keep_if p q h xs)

pushed_kept :
    (db : LocalStore) (cutoff : ℤ) (k : ℕ) (peer_id : Text) (v : ℤ)
    → get_last_pushed_seq_opt db peer_id ≡ some v
    → (r : Row) → ltb_ℤ v (pos r.ingest_seq) ≡ true
    → not (prune_test db cutoff k r) ≡ true
unfolding get_last_pushed_seq_opt
pushed_kept db cutoff k peer_id v e r h = elim (Bool-cases (prune_test db cutoff k r)) [
  | inl t ↦
      let p = (prune_test-IsPrunable db cutoff k r).0 t in
      absurd (ground (arith, select_peer-All (pos r.ingest_seq) v peer_id db.peer_push_state e p.2))
  | inr f ↦ rw f
]

-- A prune leaves the number of entries still to be pushed to a peer as it was, whether of one device
-- or of all, for every peer that has a push cursor.
pub prune_keeps_pending :
    (db : LocalStore) (cutoff : ℤ) (k : ℕ) (peer_id : Text) (v : ℤ) (source : Option Text)
    → get_last_pushed_seq_opt db peer_id ≡ some v
    → count_pending_push_entries (prune_entries_older_than db cutoff k false).0 peer_id source
      ≡ count_pending_push_entries db peer_id source
unfolding count_pending_push_entries count_entries_after_seq get_last_pushed_seq
prune_keeps_pending db cutoff k peer_id v none e =
    rw (prune_state db cutoff k, e)
      (ap length (
        keep_if-keep_if (λ r. ltb_ℤ v (pos r.ingest_seq)) _ (pushed_kept db cutoff k peer_id v e)
          db.entries))
prune_keeps_pending db cutoff k peer_id v (some device_id) e =
    rw (prune_state db cutoff k, e)
      (ap length (
        keep_if-keep_if (λ r. ltb_ℤ v (pos r.ingest_seq) && text_eq r.device_id device_id) _
          (λ r h. pushed_kept db cutoff k peer_id v e r (ground arith)) db.entries))

has_id-keep_if :
    (id : Text) (p : Row → Bool) (rows : List Row)
    → has_id id rows ≡ false
    → has_id id (keep_if p rows) ≡ false
unfolding has_id
has_id-keep_if id p [] h = refl
has_id-keep_if id p (r ∷ rows) h = ground (arith, has_id-keep_if id p rows)

UniqueIds-keep_if : (p : Row → Bool) (rows : List Row) → UniqueIds rows → UniqueIds (keep_if p rows)
UniqueIds-keep_if p [] u = tt
UniqueIds-keep_if p (r ∷ rows) u =
    ground (arith, UniqueIds-keep_if p rows u.1, has_id-keep_if r.entry_id p rows u.0)

-- A prune keeps a table with rising keys, unique ids and readable times one.
pub prune-IsWellFormed :
    {T : Type 0} (time : TimeApi T) (db : LocalStore) (cutoff : ℤ) (k : ℕ) (dry_run : Bool)
    → IsWellFormed time db
    → IsWellFormed time (prune_entries_older_than db cutoff k dry_run).0
prune-IsWellFormed time db cutoff k true w = rw ((prune_stats db cutoff k).0) w
prune-IsWellFormed time db cutoff k false w = rw (prune_state db cutoff k) (record {
  rising = Rising-keep_if _ 0 _ db.entries w.rising;
  unique = UniqueIds-keep_if _ db.entries w.unique;
  readable = All-keep_if (IsReadable time) _ db.entries w.readable;
})
