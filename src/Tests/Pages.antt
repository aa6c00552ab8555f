-- ===== src/Tests/Pages.antt =====
-- The pages of the store `far` are short texts.
use rustory.Prelude.{
  ℕ, zero, suc, ℤ, pos, negsuc, ◌≤◌, Bool, List, [], ◌∷◌, ◌≡◌, ◌∙◌, sym, arith, keep_if, take,
  as_i64, Bool-cases, inl, inr, text_eq,
}
use mathlib.Core.Path.{subst}
use rustory.Errors.{ok, ok_injective}
use rustory.Storage.Schema.{Row, limit_rows}
use rustory.Storage.Entries.{
  PullBatch, pull_since_cursor, row_to_entry, has_id, entry_row, insert_or_ignore, insert_loop,
  insert_entries_with_stats,
}
use rustory.Storage.Entries.Paging.{next_of}
use rustory.Storage.Entries.Pull.{entries_of, pull_since_cursor_lem}
use rustory.Transport.Pulled.{byte_length}
use rustory.Tests.Wire.{wire}
use rustory.Tests.{seconds, counting, far, far-IsWellFormed}

-- `P` holds of every list that leaving out rows makes of these.
abbrev AllSubs : (List Row → Type 0) → List Row → Type 0
AllSubs P [] = P []
AllSubs P (r ∷ rows) = AllSubs P rows × AllSubs (λ l. P (r ∷ l)) rows

AllSubs-keep_if :
    (P : List Row → Type 0) (p : Row → Bool) (rows : List Row)
    → AllSubs P rows
    → AllSubs P (keep_if p rows)
AllSubs-keep_if P p [] h = h
AllSubs-keep_if P p (r ∷ rows) h = elim (Bool-cases (p r)) [
  | inl t ↦ rw t (AllSubs-keep_if P p rows h.0, AllSubs-keep_if (λ l. P (r ∷ l)) p rows h.1)
  | inr f ↦ rw f (AllSubs-keep_if P p rows h.0)
]

AllSubs-nil : (P : List Row → Type 0) (rows : List Row) → AllSubs P rows → P []
AllSubs-nil P [] h = h
AllSubs-nil P (r ∷ rows) h = AllSubs-nil P rows h.0

AllSubs-take : (P : List Row → Type 0) (n : ℕ) (rows : List Row) → AllSubs P rows → P (take n rows)
AllSubs-take P zero rows h = AllSubs-nil P rows h
AllSubs-take P (suc n) [] h = h
AllSubs-take P (suc n) (r ∷ rows) h = AllSubs-take (λ l. P (r ∷ l)) n rows h.1

AllSubs-all : (P : List Row → Type 0) (rows : List Row) → AllSubs P rows → P rows
AllSubs-all P [] h = h
AllSubs-all P (r ∷ rows) h = AllSubs-all (λ l. P (r ∷ l)) rows h.1

AllSubs-limit_rows :
    (P : List Row → Type 0) (n : ℤ) (rows : List Row) → AllSubs P rows → P (limit_rows n rows)
AllSubs-limit_rows P (pos n) rows h = AllSubs-take P n rows h
AllSubs-limit_rows P (negsuc n) rows h = AllSubs-all P rows h

abbrev IsReadPage : List Row → Type 0
IsReadPage rows =
    byte_length
      (wire.batch_text (record { entries = entries_of seconds rows; next_cursor = next_of rows }))
    ≤ 10_485_760

far-AllSubs : AllSubs IsReadPage far.entries
unfolding byte_length entries_of row_to_entry insert_entries_with_stats insert_loop insert_or_ignore
    has_id entry_row text_eq
far-AllSubs = (
  ((omega arith, omega arith), (omega arith, omega arith)),
  ((omega arith, omega arith), (omega arith, omega arith)),
)

pub far-IsReadPage :
    (cursor : ℤ) (size : ℕ) (batch : PullBatch ℤ)
    → pull_since_cursor far cursor size ≡ ok batch
    → byte_length (wire.batch_text batch) ≤ 10_485_760
far-IsReadPage cursor size batch found =
    let same =
      ok_injective (sym (pull_since_cursor_lem far cursor size far-IsWellFormed) ∙ found) in
    subst (λ b. byte_length (wire.batch_text b) ≤ 10_485_760) same
      (AllSubs-limit_rows IsReadPage (as_i64 size) _
        (AllSubs-keep_if IsReadPage _ far.entries far-AllSubs))
