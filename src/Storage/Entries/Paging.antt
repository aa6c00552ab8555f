-- ===== src/Storage/Entries/Paging.antt =====
-- src/storage.rs: pages of rows past a cursor.
use rustory.Prelude.{
  ℕ, zero, suc, ℤ, pos, negsuc, ◌≤◌, ◌<◌, Text, true, Option, none, some, List, [], ◌∷◌, ◌++◌, ◌≡◌,
  refl, sym, ap, ◌∙◌, ◌&&◌, arith, take, All, keep_if, as_i64, ltb_ℤ, ◌≤ℤ◌, text_eq,
}
use rustory.Storage.Schema.{Row, limit_rows}
use rustory.Storage.Entries.Invariant.{Rising, Rising-keep_if, Rising-lower}
use mathlib.Core.List.{append-nil}
use mathlib.Core.Path.{subst}

-- The rows under keys past the cursor, in the order of their keys.
abbrev pub after : ℤ → List Row → List Row
after cursor = keep_if (λ r. ltb_ℤ cursor (pos r.ingest_seq))

abbrev pub of_device : Text → List Row → List Row
of_device device_id = keep_if (λ r. text_eq r.device_id device_id)

abbrev pub page : ℤ → ℕ → List Row → List Row
page cursor limit rows = limit_rows (as_i64 limit) (after cursor rows)

-- The key of the last row, and `k` if there is none.
abbrev pub last_key : ℕ → List Row → ℕ
last_key k [] = k
last_key k (r ∷ rows) = last_key r.ingest_seq rows

abbrev pub next_of : List Row → Option ℤ
next_of [] = none
next_of (r ∷ rows) = some (pos (last_key r.ingest_seq rows))

-- The rows that a cursor query without or with a device reads.
abbrev pub of_source : Option Text → List Row → List Row
of_source none rows = rows
of_source (some device_id) rows = of_device device_id rows

pub after-of_device :
    (cursor : ℤ) (device_id : Text) (rows : List Row)
    → keep_if (λ r. ltb_ℤ cursor (pos r.ingest_seq) && text_eq r.device_id device_id) rows
      ≡ after cursor (of_device device_id rows)
after-of_device cursor device_id [] = refl
after-of_device cursor device_id (r ∷ rows) = ground (arith, after-of_device cursor device_id rows)

pub Rising-of_source :
    (o : Option Text) (lo hi : ℕ) (rows : List Row)
    → Rising lo rows hi
    → Rising lo (of_source o rows) hi
Rising-of_source none lo hi rows r = r
Rising-of_source (some d) lo hi rows r = Rising-keep_if _ lo hi rows r

-- The rows past a later cursor are among those past an earlier one.
after-after :
    (cursor : ℤ) (next : ℕ) (rows : List Row)
    → cursor ≤ℤ pos next
    → after (pos next) (after cursor rows) ≡ after (pos next) rows
after-after cursor next [] h = refl
after-after cursor next (r ∷ rows) h = ground (arith, after-after cursor next rows h)

after-all : (next hi : ℕ) (rows : List Row) → Rising next rows hi → after (pos next) rows ≡ rows
after-all next hi [] r = refl
after-all next hi (x ∷ rows) r =
    ground
      (arith, after-all next hi rows (Rising-lower x.ingest_seq next hi rows (omega arith) r.1))

pub le-last_key : (k hi : ℕ) (p q : List Row) → Rising k (p ++ q) hi → k ≤ last_key k p
le-last_key k hi [] q r = omega arith
le-last_key k hi (x ∷ p) q r = omega (arith, le-last_key x.ingest_seq hi p q r.1)

after-last_key :
    (k hi : ℕ) (p q : List Row) → Rising k (p ++ q) hi → after (pos (last_key k p)) (p ++ q) ≡ q
after-last_key k hi [] q r = after-all k hi q r
after-last_key k hi (x ∷ p) q r =
    ground (arith, after-last_key x.ingest_seq hi p q r.1, le-last_key x.ingest_seq hi p q r.1)

take-prefix : (n : ℕ) (rows : List Row) → (q : List Row) × (rows ≡ take n rows ++ q)
take-prefix zero rows = (rows, refl)
take-prefix (suc n) [] = ([], refl)
take-prefix (suc n) (x ∷ rows) = let (q, e) = take-prefix n rows in (q, ap (λ l. x ∷ l) e)

pub limit_rows-prefix : (n : ℤ) (rows : List Row) → (q : List Row) × (rows ≡ limit_rows n rows ++ q)
limit_rows-prefix (pos n) rows = take-prefix n rows
limit_rows-prefix (negsuc n) rows = ([], sym (append-nil rows))

limit_rows_nil :
    (limit : ℕ) (rows : List Row) → 0 < limit → limit_rows (as_i64 limit) rows ≡ [] → rows ≡ []
limit_rows_nil limit [] h e = refl
limit_rows_nil zero (x ∷ rows) h e = elim h [ ]
limit_rows_nil (suc limit) (x ∷ rows) h e = ground arith

-- With a limit of at least one a page is empty only where no row is left.
pub page_nil :
    (cursor : ℤ) (limit : ℕ) (rows : List Row)
    → 0 < limit
    → page cursor limit rows ≡ []
    → after cursor rows ≡ []
page_nil cursor limit rows h e = limit_rows_nil limit (after cursor rows) h e

past_cursor :
    (cursor : ℤ) (rows : List Row)
    → All (λ r. ltb_ℤ cursor (pos r.ingest_seq) ≡ true) (after cursor rows)
past_cursor cursor [] = tt
past_cursor cursor (x ∷ rows) = ground (arith, past_cursor cursor rows)

page_next_cons :
    (cursor : ℤ) (lo hi : ℕ) (x : Row) (p q rows : List Row)
    → after cursor rows ≡ x ∷ (p ++ q)
    → ltb_ℤ cursor (pos x.ingest_seq) ≡ true
    → Rising lo (x ∷ (p ++ q)) hi
    → (ltb_ℤ cursor (pos (last_key x.ingest_seq p)) ≡ true)
      × (after cursor rows ≡ x ∷ (p ++ after (pos (last_key x.ingest_seq p)) rows))
page_next_cons cursor lo hi x p q rows e c r =
    (ground (arith, le), e ∙ ap (λ l. x ∷ (p ++ l)) (sym rest))
  where
    le : x.ingest_seq ≤ last_key x.ingest_seq p
    le = le-last_key x.ingest_seq hi p q r.1

    rest : after (pos (last_key x.ingest_seq p)) rows ≡ q
    rest =
        sym (after-after cursor (last_key x.ingest_seq p) rows (ground (arith, le)))
        ∙ ap (after (pos (last_key x.ingest_seq p))) e
        ∙ ground (arith, le, after-last_key x.ingest_seq hi p q r.1)

page_next_prefix :
    (cursor : ℤ) (lo hi : ℕ) (rows p q : List Row) (next : ℤ)
    → Rising lo (after cursor rows) hi
    → All (λ r. ltb_ℤ cursor (pos r.ingest_seq) ≡ true) (after cursor rows)
    → after cursor rows ≡ p ++ q
    → next_of p ≡ some next
    → (ltb_ℤ cursor next ≡ true) × (after cursor rows ≡ p ++ after next rows)
page_next_prefix cursor lo hi rows [] q next r c e n = cc
page_next_prefix cursor lo hi rows (x ∷ p) q next r c e n =
    let found : pos (last_key x.ingest_seq p) ≡ next = cc in
    rw (← found) (
      page_next_cons cursor lo hi x p q rows e
        (subst (All (λ r. ltb_ℤ cursor (pos r.ingest_seq) ≡ true)) e c).0
        (subst (λ l. Rising lo l hi) e r))

-- The next cursor of a page that is not empty lies past the cursor, and the rows past the cursor
-- are those of the page followed by those past the next cursor.
pub page_next :
    (cursor : ℤ) (limit lo hi : ℕ) (rows : List Row) (next : ℤ)
    → Rising lo rows hi
    → next_of (page cursor limit rows) ≡ some next
    → (ltb_ℤ cursor next ≡ true) × (after cursor rows ≡ page cursor limit rows ++ after next rows)
page_next cursor limit lo hi rows next r e =
    let (q, split) = limit_rows-prefix (as_i64 limit) (after cursor rows) in
    page_next_prefix cursor lo hi rows (page cursor limit rows) q next
      (Rising-keep_if _ lo hi rows r) (past_cursor cursor rows) split e
