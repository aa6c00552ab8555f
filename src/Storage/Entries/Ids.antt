-- ===== src/Storage/Entries/Ids.antt =====
-- src/storage.rs: the table `entries` as the set of its entry ids, which forgets keys and order.
use rustory.Prelude.{
  ℕ, Text, Bool, true, false, List, [], ◌∷◌, ◌≡◌, ◌∙◌, refl, sym, ap, any_of, text_eq, text_eq_iff,
  ◌||◌, Bool-cases, inl, inr, arith,
}
use rustory.Core.{Entry, TimeApi}
use rustory.Storage.Schema.{Sqlite, LocalStore}
use rustory.Storage.Entries.{
  has_id, entry_row, insert_or_ignore, insert_loop, insert_entries_with_stats,
}
use rustory.Storage.Entries.Insert.{has_id-append}

-- The set of ids of a store, and that of a batch.
abbrev pub ids_of : LocalStore → Text → Bool
ids_of db id = has_id id db.entries

abbrev pub batch_ids : {T : Type 0} → List (Entry T) → Text → Bool
batch_ids es id = any_of (λ e. text_eq e.entry_id id) es

or_assoc : (a b c : Bool) → ((a || b) || c) ≡ (a || (b || c))
or_assoc a b c = ground arith

or_swap : (a b c : Bool) → ((a || b) || c) ≡ ((a || c) || b)
or_swap a b c = ground arith

or_nothing : (a : Bool) → a ≡ (a || false)
or_nothing a = ground arith

has_same : (f : Text → Bool) (k id : Text) → f k ≡ true → f id ≡ (f id || text_eq k id)
has_same f k id h = elim (Bool-cases (text_eq k id)) [
  | inl same ↦ let there : f id ≡ true = ap f (sym ((text_eq_iff k id).0 same)) ∙ h in rw there refl
  | inr differs ↦ rw differs (or_nothing (f id))
]

module _ {T : Type 0} ⦃time : TimeApi T⦄ ⦃sql : Sqlite⦄ where
  ids-insert_or_ignore :
      (db : LocalStore) (e : Entry T) (id : Text)
      → ids_of (insert_or_ignore db e).0 id ≡ (ids_of db id || text_eq e.entry_id id)
  unfolding insert_or_ignore has_id entry_row
  ids-insert_or_ignore db e id = elim (Bool-cases (has_id e.entry_id db.entries)) [
    | inl there ↦ rw there (has_same (ids_of db) e.entry_id id there)
    | inr new ↦ rw new (
        has_id-append id db.entries (entry_row (sql.next_rowid db.entries_mark) e ∷ [])
        ∙ ap (λ x. ids_of db id || x) (sym (or_nothing (text_eq e.entry_id id))))
  ]

  ids-insert_loop :
      (db : LocalStore) (es : List (Entry T)) (n : ℕ) (id : Text)
      → ids_of (insert_loop db es n).0 id ≡ (ids_of db id || batch_ids es id)
  unfolding insert_loop
  ids-insert_loop db [] n id = or_nothing (ids_of db id)
  ids-insert_loop db (e ∷ es) n id =
      ids-insert_loop (insert_or_ignore db e).0 es _ id
      ∙ ap (λ x. x || batch_ids es id) (ids-insert_or_ignore db e id)
      ∙ or_assoc (ids_of db id) (text_eq e.entry_id id) (batch_ids es id)

  ids-insert_entries :
      (db : LocalStore) (es : List (Entry T)) (id : Text)
      → ids_of (insert_entries_with_stats db es).0 id ≡ (ids_of db id || batch_ids es id)
  unfolding insert_entries_with_stats
  ids-insert_entries db [] id = or_nothing (ids_of db id)
  ids-insert_entries db (e ∷ es) id = ids-insert_loop db (e ∷ es) 0 id

  -- Inserting a batch is the union of the ids of the store with those of the batch; so two batches, in
  -- whichever order they come, leave the same ids.
  pub insert_entries_union :
      (db : LocalStore) (es fs : List (Entry T)) (id : Text)
      → (ids_of (insert_entries_with_stats db es).0 id ≡ (ids_of db id || batch_ids es id))
        × (ids_of (insert_entries_with_stats (insert_entries_with_stats db es).0 fs).0 id
            ≡ ids_of (insert_entries_with_stats (insert_entries_with_stats db fs).0 es).0 id)
  insert_entries_union db es fs id = (
    ids-insert_entries db es id,
    ids-insert_entries (insert_entries_with_stats db es).0 fs id
        ∙ ap (λ x. x || batch_ids fs id) (ids-insert_entries db es id)
        ∙ or_swap (ids_of db id) (batch_ids es id) (batch_ids fs id)
        ∙ sym (
            ids-insert_entries (insert_entries_with_stats db fs).0 es id
            ∙ ap (λ x. x || batch_ids es id) (ids-insert_entries db fs id)),
  )
