-- ===== src/Storage/Entries/PageIds.antt =====
-- src/storage.rs: the entry ids of the rows and of the entries of a page.
use rustory.Prelude.{
  ℕ, zero, suc, ℤ, pos, negsuc, Text, Bool, true, List, [], ◌∷◌, ◌≡◌, refl, ap, any_of, keep_if,
  take, text_eq, ◌||◌, inl, inr, arith, as_i64, All,
}
use rustory.Errors.{Result-cases}
use rustory.Core.{TimeApi}
use rustory.Storage.Schema.{Row, limit_rows}
use rustory.Storage.Entries.{has_id, row_to_entry}
use rustory.Storage.Entries.Ids.{batch_ids}
use rustory.Storage.Entries.Invariant.{IsReadable}
use rustory.Storage.Entries.Paging.{after, page}
use rustory.Storage.Entries.Pull.{
  entries_of, entries_of_cons, readable_entry, row_to_entry-entry_id,
}

any-keep_if :
    (q p : Row → Bool) (rows : List Row) → any_of q (keep_if p rows) ≡ true → any_of q rows ≡ true
any-keep_if q p [] h = h
any-keep_if q p (r ∷ rows) h = ground (arith, h, any-keep_if q p rows)

any-take :
    (q : Row → Bool) (n : ℕ) (rows : List Row)
    → any_of q (take n rows) ≡ true
    → any_of q rows ≡ true
any-take q zero rows h = absurd (cc)
any-take q (suc n) [] h = absurd (cc)
any-take q (suc n) (r ∷ rows) h = ground (arith, h, any-take q n rows)

any-limit_rows :
    (q : Row → Bool) (n : ℤ) (rows : List Row)
    → any_of q (limit_rows n rows) ≡ true
    → any_of q rows ≡ true
any-limit_rows q (pos n) rows h = any-take q n rows h
any-limit_rows q (negsuc n) rows h = h

-- What a page has stands past the cursor.
pub has_id-page-after :
    (id : Text) (cursor : ℤ) (limit : ℕ) (rows : List Row)
    → has_id id (page cursor limit rows) ≡ true
    → has_id id (after cursor rows) ≡ true
unfolding has_id
has_id-page-after id cursor limit rows h = any-limit_rows _ (as_i64 limit) (after cursor rows) h

pub has_id-page :
    (id : Text) (cursor : ℤ) (limit : ℕ) (rows : List Row)
    → has_id id (page cursor limit rows) ≡ true
    → has_id id rows ≡ true
unfolding has_id
has_id-page id cursor limit rows h =
    any-keep_if _ _ rows (any-limit_rows _ (as_i64 limit) (after cursor rows) h)

module _ {T : Type 0} (time : TimeApi T) where
  pub batch_ids-entries_of :
      (id : Text) (rows : List Row)
      → batch_ids (entries_of time rows) id ≡ true
      → has_id id rows ≡ true
  unfolding entries_of has_id
  batch_ids-entries_of id [] h = h
  batch_ids-entries_of id (r ∷ rows) h = elim (Result-cases (row_to_entry ⦃time = time⦄ r)) [
    | inl (e, d) ↦
        let listed : (text_eq e.entry_id id || batch_ids (entries_of time rows) id) ≡ true =
          rw (d, entries_of) at h in
        ground
          (arith, listed, batch_ids-entries_of id rows, row_to_entry-entry_id ⦃time = time⦄ r e d)
    | inr (x, d) ↦
        let listed : batch_ids (entries_of time rows) id ≡ true = rw (d, entries_of) at h in
        ground (arith, batch_ids-entries_of id rows listed)
  ]

  pub batch_ids-entries_of_readable :
      (id : Text) (rows : List Row)
      → All (IsReadable time) rows
      → batch_ids (entries_of time rows) id ≡ has_id id rows
  unfolding entries_of has_id
  batch_ids-entries_of_readable id [] h = refl
  batch_ids-entries_of_readable id (r ∷ rows) h =
      let (e, d) = readable_entry time r h.0 in
      let same : e.entry_id ≡ r.entry_id = row_to_entry-entry_id ⦃time = time⦄ r e d in
      rw (entries_of_cons time r e rows d, same)
        (ap (λ b. text_eq r.entry_id id || b) (batch_ids-entries_of_readable id rows h.1))
