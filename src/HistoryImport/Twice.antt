-- ===== src/HistoryImport/Twice.antt =====
-- src/history_import.rs: importing the same history again, at a later time.
use rustory.Prelude.{
  ℕ, ◌+◌, ◌-◌, ◌≤◌, ℤ, true, Option, none, some, List, [], ◌∷◌, ◌≡◌, refl, ◌∙◌, ap, sym, arith,
  length, All, Bool-cases, Option-cases, inl, inr,
}
use mathlib.Core.Path.{subst}
use rustory.Prelude.Words.{trim}
use rustory.Errors.{Result, ok, err, anyhow, ◌>>=◌, Result-cases, ok_injective}
use rustory.Core.{Entry, TimeApi, UuidApi}
use rustory.Storage.Schema.{Sqlite, Row, LocalStore}
use rustory.Storage.Entries.{has_id}
use rustory.Storage.Entries.Insert.{insert_entries_lem}
use rustory.Storage.Entries.Repeat.{insert_entries_ignored}
use rustory.HistoryImport.Parse.{HistoryRecord}
use rustory.HistoryImport.{
  ImportRequest, ImportStats, ImportRun, Earlier, is_skipped, filled_ts_unix, record_entry,
  record_id, import_record, import_start, import_into_store,
}
use rustory.HistoryImport.Batches.{
  kept_entries, kept_skipped, kept_made, kept_failed, at_once, IsOutcome, outcome_cong,
}
use rustory.HistoryImport.Outcome.{records_of, import_into_store-IsOutcome, stats_of}

module _ {T : Type 0} where
  -- Two lists of entries with the same entry ids.
  abbrev SameIds : List (Entry T) → List (Entry T) → Type 0
  SameIds [] [] = Unit
  SameIds (e ∷ es) (f ∷ fs) = (f.entry_id ≡ e.entry_id) × SameIds es fs
  SameIds [] (f ∷ fs) = ⊥
  SameIds (e ∷ es) [] = ⊥

  SameIds-All :
      (rows : List Row) (es fs : List (Entry T))
      → SameIds es fs
      → All (λ e. has_id e.entry_id rows ≡ true) es
      → All (λ e. has_id e.entry_id rows ≡ true) fs
  SameIds-All rows [] [] same h = tt
  SameIds-All rows (e ∷ es) (f ∷ fs) same h = (rw (same.0) (h.0), SameIds-All rows es fs same.1 h.1)
  SameIds-All rows [] (f ∷ fs) same h = absurd same
  SameIds-All rows (e ∷ es) [] same h = absurd same

  length-SameIds : (es fs : List (Entry T)) → SameIds es fs → length fs ≡ length es
  length-SameIds [] [] same = refl
  length-SameIds (e ∷ es) (f ∷ fs) same = omega (arith, length-SameIds es fs same.1)
  length-SameIds [] (f ∷ fs) same = absurd same
  length-SameIds (e ∷ es) [] same = absurd same

  abbrev IsAgain : Result (List (Entry T)) → Result (List (Entry T)) → Type 0
  IsAgain (ok es) again = (fs : List (Entry T)) × (again ≡ ok fs) × SameIds es fs
  IsAgain (err e) again = Unit

  IsAgain-cons :
      (e f : Entry T) (kept again : Result (List (Entry T)))
      → f.entry_id ≡ e.entry_id
      → IsAgain kept again
      → IsAgain (kept >>= λ es. ok (e ∷ es)) (again >>= λ fs. ok (f ∷ fs))
  IsAgain-cons e f (ok es) again id h = rw (h.1) (f ∷ h.0, refl, (id, h.2))
  IsAgain-cons e f (err e') again id h = tt

module _ {T : Type 0} ⦃time : TimeApi T⦄ ⦃uuid : UuidApi⦄ where
  -- The seconds of the time are a date again.
  abbrev pub IsDate : T → Type 0
  IsDate now = (t : T) × (time.from_unix_timestamp (time.unix_timestamp now) ≡ some t)

  record_dated :
      (earlier : Earlier T) (req : ImportRequest) (total : ℕ) (now : T) (i : ℕ) (r : HistoryRecord)
      (t : T)
      → time.from_unix_timestamp (filled_ts_unix earlier total i r.ts_unix now) ≡ some t
      → import_record earlier req total now i r ≡ ok (record_entry req r t)
  unfolding import_record
  record_dated earlier req total now i r t h = rw (h, import_record) refl

  record_date :
      (earlier : Earlier T) (req : ImportRequest) (total : ℕ) (now : T) (i : ℕ) (r : HistoryRecord)
      (e : Entry T)
      → import_record earlier req total now i r ≡ ok e
      → (t : T) × (time.from_unix_timestamp (filled_ts_unix earlier total i r.ts_unix now) ≡ some t)
        × (record_entry req r t ≡ e)
  unfolding import_record
  record_date earlier req total now i r e h =
      elim (Option-cases
        (time.from_unix_timestamp (filled_ts_unix earlier total i r.ts_unix now))) [
          | inl bad ↦
              let failed : import_record earlier req total now i r
                  ≡ err (anyhow "invalid unix timestamp") =
                rw (bad, import_record) refl in
              absurd (cc)
          | inr (t, good) ↦
              (t, good, ok_injective (sym (record_dated earlier req total now i r t good) ∙ h))
        ]

  -- A time that is filled in is a date, and one that stands in the history is the same each time.
  date_again :
      (earlier : Earlier T) (total i : ℕ) (now now' : T) (ts : Option ℤ) (t : T)
      → ((k : ℕ) → k ≤ total → IsDate (earlier now' k))
      → time.from_unix_timestamp (filled_ts_unix earlier total i ts now) ≡ some t
      → (t' : T) × (time.from_unix_timestamp (filled_ts_unix earlier total i ts now') ≡ some t')
  unfolding filled_ts_unix
  date_again earlier total i now now' (some ts) t d h = (t, h)
  date_again earlier total i now now' none t d h = d (total - 1 - i) (omega arith)

  entry_id-record_entry :
      (req : ImportRequest) (r : HistoryRecord) (t : T)
      → (record_entry req r t).entry_id ≡ record_id req r
  unfolding record_entry
  entry_id-record_entry req r t = refl

  record_again :
      (earlier : Earlier T) (req : ImportRequest) (total : ℕ) (now now' : T) (i : ℕ)
      (r : HistoryRecord) (e : Entry T)
      → ((k : ℕ) → k ≤ total → IsDate (earlier now' k))
      → import_record earlier req total now i r ≡ ok e
      → (f : Entry T) × (import_record earlier req total now' i r ≡ ok f)
        × (f.entry_id ≡ e.entry_id)
  record_again earlier req total now now' i r e d h =
      let (t, good, made) = record_date earlier req total now i r e h in
      let (t', good') = date_again earlier total i now now' r.ts_unix t d good in
      (
        record_entry req r t',
        record_dated earlier req total now' i r t' good',
        entry_id-record_entry req r t'
            ∙ sym (entry_id-record_entry req r t)
            ∙ ap (λ e. e.entry_id) made,
      )

  kept-IsAgain :
      (earlier : Earlier T) (req : ImportRequest) (total : ℕ) (now now' : T) (i : ℕ)
      (rs : List HistoryRecord)
      → ((k : ℕ) → k ≤ total → IsDate (earlier now' k))
      → IsAgain (kept_entries earlier req total now i rs) (kept_entries earlier req total now' i rs)
  kept-IsAgain earlier req total now now' i [] d = unfold kept_entries in ([], refl, tt)
  kept-IsAgain earlier req total now now' i (r ∷ rs) d =
      let rest = kept-IsAgain earlier req total now now' (i + 1) rs d in
      elim (Bool-cases (is_skipped req (trim r.cmd))) [
        | inl skip ↦
            rw
              (
                (kept_skipped earlier req total now i r rs skip).0,
                (kept_skipped earlier req total now' i r rs skip).0,
              )
              rest
        | inr keep ↦ elim (Result-cases (import_record earlier req total now i r)) [
          | inl (e, made) ↦
              let (f, made', id) = record_again earlier req total now now' i r e d made in
              rw
                (
                  (kept_made earlier req total now i r rs e keep made).0,
                  (kept_made earlier req total now' i r rs f keep made').0,
                )
                (IsAgain-cons e f (kept_entries earlier req total now (i + 1) rs) _ id rest)
          | inr (e, bad) ↦ rw (kept_failed earlier req total now i r rs e keep bad) tt
        ]
      ]

module _ {T : Type 0} ⦃time : TimeApi T⦄ ⦃uuid : UuidApi⦄ ⦃sql : Sqlite⦄ where
  IsOutcome-ok :
      (store : LocalStore) (n k : ℕ) (run : ImportRun) (kept : Result (List (Entry T)))
      (es : List (Entry T))
      → IsOutcome (import_start store) n k run kept
      → kept ≡ ok es
      → run ≡ at_once (import_start store) n k es
  IsOutcome-ok store n k run kept es h e = subst (IsOutcome (import_start store) n k run) e h

  -- Where an import has ended well, importing the same history again, at whatever time, succeeds, if
  -- the times that are filled in for records without one are dates then: it inserts nothing, ignores
  -- what it does not skip, skips as many records, and changes no row.
  pub import_twice :
      (earlier : Earlier T) (now now' : T) (store : LocalStore) (req : ImportRequest)
      (stats : ImportStats)
      → (import_into_store earlier now store req).result ≡ ok stats
      → ((k : ℕ) → k ≤ length (records_of req) → IsDate (earlier now' k))
      → let once = (import_into_store earlier now store req).store in
        ((import_into_store earlier now' once req).result
          ≡ ok (record {
            received = stats.received;
            inserted = 0;
            ignored = stats.inserted + stats.ignored;
            skipped = stats.skipped;
          }))
        × ((import_into_store earlier now' once req).store.entries ≡ once.entries)
  import_twice earlier now now' store req stats h dated =
      let n = length (records_of req) in
      let once = import_into_store earlier now store req in
      let (es, kept, run, numbers) =
        stats_of (import_start store) _ _ _ _ stats
          (import_into_store-IsOutcome earlier now store req) h in
      let (fs, kept', same) =
        subst (λ k. IsAgain k (kept_entries earlier req n now' 0 (records_of req))) kept
          (kept-IsAgain earlier req n now now' 0 (records_of req) dated) in
      let present : All (λ e. has_id e.entry_id once.store.entries ≡ true) fs =
        SameIds-All once.store.entries es fs same (
          subst (λ run. All (λ e. has_id e.entry_id run.store.entries ≡ true) es) (sym run)
            (insert_entries_lem store es).2) in
      let again = insert_entries_ignored once.store fs present in
      let run' =
        IsOutcome-ok once.store _ _ _ _ fs (import_into_store-IsOutcome earlier now' once.store req)
          kept' in
      let values = ok_injective numbers in
      let sum = (insert_entries_lem store es).1 in
      let same_length = length-SameIds es fs same in
      (
        ap (λ run. run.result) run'
            ∙ ap (λ run. run.result)
                (outcome_cong {s = once.store} (omega (arith, ap (λ s. s.received) values))
                  (omega (arith, again.1))
                  (omega (
                    arith,
                    again.2,
                    sum,
                    same_length,
                    ap (λ s. s.inserted) values,
                    ap (λ s. s.ignored) values,
                  ))
                  (omega (arith, ap (λ s. s.skipped) values)) refl),
        ap (λ run. run.store.entries) run' ∙ again.0,
      )
