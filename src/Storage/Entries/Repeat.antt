-- ===== src/Storage/Entries/Repeat.antt =====
-- src/storage.rs: a batch that is stored again, and one that is stored in parts.
use rustory.Prelude.{
  ℕ, ◌+◌, ◌-◌, true, List, [], ◌∷◌, ◌++◌, ◌≡◌, refl, ◌∙◌, ap, sym, arith, length, All,
  length-append,
}
use mathlib.Core.Path.{subst}
use rustory.Core.{Entry, TimeApi}
use rustory.Storage.Schema.{Sqlite, LocalStore}
use rustory.Storage.Entries.{has_id, insert_or_ignore, insert_loop, insert_entries_with_stats}
use rustory.Storage.Entries.Insert.{insert_or_ignore_old, insert_loop-le, insert_entries_lem}

module _ {T : Type 0} ⦃time : TimeApi T⦄ ⦃sql : Sqlite⦄ where
  insert_loop_ignored :
      (db : LocalStore) (es : List (Entry T)) (n : ℕ)
      → All (λ e. has_id e.entry_id db.entries ≡ true) es
      → ((insert_loop db es n).0.entries ≡ db.entries) × ((insert_loop db es n).1 ≡ n)
  unfolding insert_loop
  insert_loop_ignored db [] n h = (refl, refl)
  insert_loop_ignored db (e ∷ es) n h =
      rw (insert_or_ignore_old db e h.0, insert_loop)
        (let r =
            insert_loop_ignored (record db { entries_mark = sql.ignored_rowid db.entries_mark }) es
              (n + 0) h.1 in
          (r.0, omega (arith, r.1)))

  pub insert_entries_ignored :
      (db : LocalStore) (es : List (Entry T))
      → All (λ e. has_id e.entry_id db.entries ≡ true) es
      → ((insert_entries_with_stats db es).0.entries ≡ db.entries)
        × ((insert_entries_with_stats db es).1.inserted ≡ 0)
        × ((insert_entries_with_stats db es).1.ignored ≡ length es)
  unfolding insert_entries_with_stats
  insert_entries_ignored db [] h = (refl, refl, refl)
  insert_entries_ignored db (e ∷ es) h =
      let r = insert_loop_ignored db (e ∷ es) 0 h in (r.0, r.1, omega (arith, r.1))

  -- A batch that is stored a second time is ignored whole, and changes no row.
  pub insert_entries_twice :
      (db : LocalStore) (es : List (Entry T))
      → let once = (insert_entries_with_stats db es).0 in
        ((insert_entries_with_stats once es).0.entries ≡ once.entries)
        × ((insert_entries_with_stats once es).1.inserted ≡ 0)
        × ((insert_entries_with_stats once es).1.ignored ≡ length es)
  insert_entries_twice db es =
      insert_entries_ignored (insert_entries_with_stats db es).0 es (insert_entries_lem db es).2

  -- The count that the loop starts from is added to its result.
  insert_loop_from :
      (db : LocalStore) (es : List (Entry T)) (n m : ℕ)
      → ((insert_loop db es (n + m)).0 ≡ (insert_loop db es m).0)
        × ((insert_loop db es (n + m)).1 ≡ n + (insert_loop db es m).1)
  unfolding insert_loop
  insert_loop_from db [] n m = (refl, refl)
  insert_loop_from db (e ∷ es) n m =
      let k = (insert_or_ignore db e).1 in
      let shift : n + m + k ≡ n + (m + k) = omega arith in
      subst
        (λ s.
          ((insert_loop (insert_or_ignore db e).0 es s).0
            ≡ (insert_loop (insert_or_ignore db e).0 es (m + k)).0)
          × ((insert_loop (insert_or_ignore db e).0 es s).1
              ≡ n + (insert_loop (insert_or_ignore db e).0 es (m + k)).1))
        (sym shift) (insert_loop_from (insert_or_ignore db e).0 es n (m + k))

  insert_loop_from_zero :
      (db : LocalStore) (es : List (Entry T)) (n : ℕ)
      → ((insert_loop db es n).0 ≡ (insert_loop db es 0).0)
        × ((insert_loop db es n).1 ≡ n + (insert_loop db es 0).1)
  insert_loop_from_zero db es n =
      let zero_right : n + 0 ≡ n = omega arith in
      subst
        (λ m.
          ((insert_loop db es m).0 ≡ (insert_loop db es 0).0)
          × ((insert_loop db es m).1 ≡ n + (insert_loop db es 0).1))
        zero_right (insert_loop_from db es n 0)

  insert_loop-append :
      (db : LocalStore) (xs ys : List (Entry T)) (n : ℕ)
      → insert_loop db (xs ++ ys) n ≡ insert_loop (insert_loop db xs n).0 ys (insert_loop db xs n).1
  unfolding insert_loop
  insert_loop-append db [] ys n = refl
  insert_loop-append db (x ∷ xs) ys n =
      insert_loop-append (insert_or_ignore db x).0 xs ys (n + (insert_or_ignore db x).1)

  insert_entries_loop :
      (db : LocalStore) (es : List (Entry T))
      → ((insert_entries_with_stats db es).0 ≡ (insert_loop db es 0).0)
        × ((insert_entries_with_stats db es).1.inserted ≡ (insert_loop db es 0).1)
        × ((insert_entries_with_stats db es).1.ignored ≡ length es - (insert_loop db es 0).1)
  unfolding insert_entries_with_stats insert_loop
  insert_entries_loop db [] = (refl, refl, refl)
  insert_entries_loop db (e ∷ es) = (refl, refl, refl)

  -- Storing two batches one after the other is storing them as one.
  pub insert_entries-append :
      (db : LocalStore) (xs ys : List (Entry T))
      → let (db', first) = insert_entries_with_stats db xs in
        ((insert_entries_with_stats db (xs ++ ys)).0 ≡ (insert_entries_with_stats db' ys).0)
        × ((insert_entries_with_stats db (xs ++ ys)).1.inserted
            ≡ first.inserted + (insert_entries_with_stats db' ys).1.inserted)
        × ((insert_entries_with_stats db (xs ++ ys)).1.ignored
            ≡ first.ignored + (insert_entries_with_stats db' ys).1.ignored)
  insert_entries-append db xs ys =
      let whole = insert_entries_loop db (xs ++ ys) in
      let first = insert_entries_loop db xs in
      let second = insert_entries_loop (insert_loop db xs 0).0 ys in
      let parts = insert_loop-append db xs ys 0 in
      let from = insert_loop_from_zero (insert_loop db xs 0).0 ys (insert_loop db xs 0).1 in
      let le = insert_loop-le db xs 0 in
      let le' = insert_loop-le (insert_loop db xs 0).0 ys 0 in
      rw first.0 (
        whole.0 ∙ ap (λ r. r.0) parts ∙ from.0 ∙ sym second.0,
        omega (arith, whole.1, first.1, second.1, ap (λ r. r.1) parts, from.1),
        omega (
          arith,
          whole.2,
          first.2,
          second.2,
          ap (λ r. r.1) parts,
          from.1,
          le,
          le',
          length-append xs ys,
        ),
      )
