-- ===== src/Storage/Entries/Extended.antt =====
-- src/storage.rs: a store that has been added to.
use rustory.Prelude.{List, [], ◌∷◌, ◌++◌, ◌≡◌, refl, ◌∙◌, ap}
use rustory.Core.{Entry, TimeApi}
use rustory.Storage.Schema.{Sqlite, Row, LocalStore}
use rustory.Storage.Entries.{insert_entries_with_stats}
use rustory.Storage.Entries.Invariant.{IsOrdered}
use rustory.Storage.Entries.Insert.{insert_entries-IsOrdered, insert_entries_lem}

-- The rows of a store stay in place, new ones come behind them, the keys still rise up to the mark
-- with no entry id twice, and the tables of peers do not change.
pub record IsExtended (db db' : LocalStore) : Type 0 where
  pub added : List Row
  pub entries : db'.entries ≡ db.entries ++ added
  pub ordered : IsOrdered db'
  pub peer_state : db'.peer_state ≡ db.peer_state
  pub peer_push_state : db'.peer_push_state ≡ db.peer_push_state
  pub peer_book : db'.peer_book ≡ db.peer_book

append_nil {ℓ} : {A : Type ℓ} (xs : List A) → xs ≡ xs ++ []
append_nil [] = refl
append_nil (x ∷ xs) = ap (λ l. x ∷ l) (append_nil xs)

append_assoc {ℓ} : {A : Type ℓ} (xs ys zs : List A) → (xs ++ ys) ++ zs ≡ xs ++ (ys ++ zs)
append_assoc [] ys zs = refl
append_assoc (x ∷ xs) ys zs = ap (λ l. x ∷ l) (append_assoc xs ys zs)

pub IsExtended-refl : (db : LocalStore) → IsOrdered db → IsExtended db db
IsExtended-refl db w = record {
  added = [];
  entries = append_nil db.entries;
  ordered = w;
  peer_state = refl;
  peer_push_state = refl;
  peer_book = refl;
}

pub IsExtended-trans : (a b c : LocalStore) → IsExtended a b → IsExtended b c → IsExtended a c
IsExtended-trans a b c f g = record {
  added = f.added ++ g.added;
  entries = g.entries ∙ ap (λ l. l ++ g.added) f.entries ∙ append_assoc a.entries f.added g.added;
  ordered = g.ordered;
  peer_state = g.peer_state ∙ f.peer_state;
  peer_push_state = g.peer_push_state ∙ f.peer_push_state;
  peer_book = g.peer_book ∙ f.peer_book;
}

module _ {T : Type 0} ⦃time : TimeApi T⦄ ⦃sql : Sqlite⦄ where
  pub insert_entries-IsExtended :
      (db : LocalStore) (es : List (Entry T))
      → IsOrdered db
      → IsExtended db (insert_entries_with_stats db es).0
  insert_entries-IsExtended db es w =
      let grown = (insert_entries_lem db es).0 in
      record {
        added = grown.added;
        entries = grown.entries;
        ordered = insert_entries-IsOrdered db es w;
        peer_state = grown.peer_state;
        peer_push_state = grown.peer_push_state;
        peer_book = grown.peer_book;
      }
