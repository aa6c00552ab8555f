-- ===== src/Sync/Push/Delivered.antt =====
-- src/sync.rs: what a push run has delivered, and to what far side.
use rustory.Prelude.{
  ℕ, ℤ, ◌<◌, Text, Bool, true, false, ◌||◌, Option, none, some, List, [], ◌++◌, ◌≡◌, arith, length,
  All, text_eq,
}
use rustory.Errors.{Result, ok, err}
use rustory.Core.{Entry, TimeApi}
use rustory.Loop.{Step, Keeps}
use rustory.Storage.Schema.{Row, LocalStore}
use rustory.Storage.Entries.{has_id}
use rustory.Storage.Entries.Ids.{batch_ids}
use rustory.Storage.Entries.Invariant.{IsWellFormed, IsReadable, All-keep_if}
use rustory.Storage.Entries.Paging.{after, of_source}
use rustory.Storage.Peers.{get_last_pushed_seq}
use rustory.Sync.{Run}
use rustory.Sync.Push.{PushState, PushFn}

-- The entry ids that the far side has: it keeps those that it had; of a push, whether it answers or
-- its answer is an error, it adds at most those of the batch; and where it answers well, all of them.
pub record IsSink {T R : Type 0} (push : PushFn T R) (taken : R → Text → Bool) : Type 0 where
  pub accepts :
      (remote : R) (es : List (Entry T)) (id : Text)
      → (push remote es).0 ≡ ok tt
      → batch_ids es id ≡ true
      → taken (push remote es).1 id ≡ true
  pub keeps :
      (remote : R) (es : List (Entry T)) (id : Text)
      → taken remote id ≡ true
      → taken (push remote es).1 id ≡ true
  pub only :
      (remote : R) (es : List (Entry T)) (id : Text)
      → taken (push remote es).1 id ≡ true
      → (taken remote id || batch_ids es id) ≡ true

pub or_from :
    {a b c : Bool} → (a || b) ≡ true → (a ≡ true → c ≡ true) → (b ≡ true → c ≡ true) → c ≡ true
or_from {a} {b} {c} h f g = ground (arith, h, f, g)

pub or_right : (a b : Bool) → b ≡ true → (a || b) ≡ true
or_right a b h = ground (arith, h)

pub or_nothing : (a : Bool) → (a || false) ≡ true → a ≡ true
or_nothing a h = ground (arith, h)

pub delivered_more :
    (a b c d : Bool)
    → (a || (b || c)) ≡ true
    → ((a || b) ≡ true → d ≡ true)
    → (c ≡ true → d ≡ true)
    → d ≡ true
delivered_more a b c d h f g = ground (arith, h, f, g)

-- The store of a push run: only the push cursor of this peer may differ.
pub record IsFrame {T : Type 0} (time : TimeApi T) (peer_id : Text) (db db' : LocalStore)
    : Type 0 where
  pub valid : IsWellFormed time db'
  pub entries : db'.entries ≡ db.entries
  pub peer_state : db'.peer_state ≡ db.peer_state
  pub peer_book : db'.peer_book ≡ db.peer_book
  pub other_cursors :
      (j : Text) → text_eq peer_id j ≡ false → get_last_pushed_seq db' j ≡ get_last_pushed_seq db j

-- The rows of the source past `start` are those done, in this order, and those past `now`. The far
-- side has what it had before and the ids of the rows done, and it has nothing else but ids of rows
-- past `start`.
pub record IsDelivered (rows : List Row) (start now : ℤ) (before taken : Text → Bool) : Type 0 where
  pub done : List Row
  pub split : after start rows ≡ done ++ after now rows
  pub delivered : (id : Text) → (before id || has_id id done) ≡ true → taken id ≡ true
  pub only : (id : Text) → taken id ≡ true → (before id || has_id id (after start rows)) ≡ true

abbrev pub IsEndOfPush : List Row → ℤ → List Row → Result ℕ → Type 0
IsEndOfPush rows now done (ok pushed) = (after now rows ≡ []) × (pushed ≡ length done)
IsEndOfPush rows now done (err e) = Unit

module _ {T R : Type 0} (time : TimeApi T) (peer_id : Text) (db : LocalStore) (source : Option Text)
    (taken : R → Text → Bool) (before : Text → Bool) where
  pub record IsPushed (run : Run R ℕ) : Type 0 where
    pub frame : IsFrame time peer_id db run.local
    pub progress :
        IsDelivered
          (of_source source db.entries)
          (get_last_pushed_seq db peer_id)
          (get_last_pushed_seq run.local peer_id)
          before
          (taken run.remote)
    pub end :
        IsEndOfPush
          (of_source source db.entries)
          (get_last_pushed_seq run.local peer_id)
          progress.done
          run.result

  -- The loop's variables agree with the store and with what the far side took.
  pub record IsPushSpan (s : PushState R) : Type 0 where
    pub frame : IsFrame time peer_id db s.local
    pub at_cursor : get_last_pushed_seq s.local peer_id ≡ s.cursor
    pub room : 0 < s.batch_limit
    pub progress :
        IsDelivered
          (of_source source db.entries)
          (get_last_pushed_seq db peer_id)
          s.cursor
          before
          (taken s.remote)
    pub counted : s.pushed_total ≡ length progress.done

abbrev pub Keeping :
    {T R : Type 0}
    → TimeApi T
    → Text
    → LocalStore
    → Option Text
    → (R → Text → Bool)
    → (Text → Bool)
    → Step (PushState R) (Run R ℕ)
    → Type 0
Keeping time peer_id db source taken before =
    Keeps (IsPushSpan time peer_id db source taken before)
      (IsPushed time peer_id db source taken before)

pub IsReadable-of_source :
    {T : Type 0} (time : TimeApi T) (o : Option Text) (db : LocalStore)
    → IsWellFormed time db
    → All (IsReadable time) (of_source o db.entries)
IsReadable-of_source time none db w = w.readable
IsReadable-of_source time (some d) db w = All-keep_if (IsReadable time) _ db.entries w.readable
