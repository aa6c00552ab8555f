-- ===== src/HistoryImport/Outcome.antt =====
-- src/history_import.rs: the numbers that an import returns, and the store that it leaves.
use rustory.Prelude.{
  ℕ, suc, ◌+◌, List, [], ◌∷◌, ◌++◌, ◌≡◌, refl, ◌∙◌, ap, sym, arith, length, leb, is_empty,
  Bool-cases, inl, inr,
}
use mathlib.Core.Path.{subst}
use rustory.Prelude.Words.{trim}
use rustory.Errors.{Result, ok, err, ◌>>=◌, Result-cases, ok_injective}
use rustory.Core.{Entry, TimeApi, UuidApi}
use rustory.Storage.Schema.{Sqlite, LocalStore}
use rustory.Storage.Entries.Invariant.{IsOrdered}
use rustory.Storage.Entries.Insert.{insert_entries-IsOrdered, insert_entries_lem}
use rustory.HistoryImport.Parse.{HistoryRecord, parse_history}
use rustory.HistoryImport.{
  ImportRequest, ImportStats, ImportState, ImportRun, Earlier, batch_size, last_records, is_skipped,
  import_record, flush, push_entry, import_step, import_loop, import_start, import_into_store,
}
use rustory.HistoryImport.Batches.{
  kept_skipped, kept_made, kept_failed, skipped_count, kept_entries, at_once, IsOutcome,
  import_loop-IsOutcome,
}

-- The records that an import goes through.
abbrev pub records_of : ImportRequest → List HistoryRecord
records_of req = last_records req.limit (parse_history req.shell req.content)

module _ {T : Type 0} ⦃time : TimeApi T⦄ ⦃uuid : UuidApi⦄ where
  -- The entries, where there are any, are `n` less `k`.
  abbrev IsRest : ℕ → ℕ → Result (List (Entry T)) → Type 0
  IsRest n k (ok es) = length es + k ≡ n
  IsRest n k (err e) = Unit

  IsRest-skip :
      (n k : ℕ) (kept : Result (List (Entry T))) → IsRest n k kept → IsRest (suc n) (suc k) kept
  IsRest-skip n k (ok es) h = omega (arith, h)
  IsRest-skip n k (err e) h = tt

  IsRest-keep :
      (n k : ℕ) (e : Entry T) (kept : Result (List (Entry T)))
      → IsRest n k kept
      → IsRest (suc n) k (kept >>= λ es. ok (e ∷ es))
  IsRest-keep n k e (ok es) h = omega (arith, h)
  IsRest-keep n k e (err e') h = tt

  kept_entries-IsRest :
      (earlier : Earlier T) (req : ImportRequest) (total : ℕ) (now : T) (i : ℕ)
      (rs : List HistoryRecord)
      → IsRest (length rs) (skipped_count req rs) (kept_entries earlier req total now i rs)
  unfolding kept_entries skipped_count
  kept_entries-IsRest earlier req total now i [] = omega arith
  kept_entries-IsRest earlier req total now i (r ∷ rs) =
      let rest = kept_entries-IsRest earlier req total now (i + 1) rs in
      elim (Bool-cases (is_skipped req (trim r.cmd))) [
        | inl skip ↦
            let (kept, count) = kept_skipped earlier req total now i r rs skip in
            rw (kept, count) (IsRest-skip _ _ (kept_entries earlier req total now (i + 1) rs) rest)
        | inr keep ↦ elim (Result-cases (import_record earlier req total now i r)) [
          | inl (e, made) ↦
              let (kept, count) = kept_made earlier req total now i r rs e keep made in
              rw (kept, count)
                (IsRest-keep _ _ e (kept_entries earlier req total now (i + 1) rs) rest)
          | inr (e, bad) ↦ rw (kept_failed earlier req total now i r rs e keep bad) tt
        ]
      ]

module _ {T : Type 0} ⦃time : TimeApi T⦄ ⦃uuid : UuidApi⦄ ⦃sql : Sqlite⦄ where
  -- An import of records that all get an entry or are skipped stores these entries as one batch would, and
  -- returns its numbers with those of the records received and skipped; a record whose time is no
  -- date makes its error the result.
  pub import_into_store-IsOutcome :
      (earlier : Earlier T) (now : T) (store : LocalStore) (req : ImportRequest)
      → IsOutcome
          (import_start store)
          (length (records_of req))
          (skipped_count req (records_of req))
          (import_into_store earlier now store req)
          (kept_entries earlier req (length (records_of req)) now 0 (records_of req))
  unfolding import_into_store
  import_into_store-IsOutcome earlier now store req =
      import_loop-IsOutcome earlier req (length (records_of req)) now 0 (records_of req)
        (import_start store)

  pub stats_of :
      (s : ImportState T) (n k : ℕ) (run : ImportRun) (kept : Result (List (Entry T)))
      (stats : ImportStats)
      → IsOutcome s n k run kept
      → run.result ≡ ok stats
      → (es : List (Entry T)) × (kept ≡ ok es)
        × (run ≡ at_once s n k es)
        × (ok stats ≡ (at_once s n k es).result)
  stats_of s n k run (ok es) stats h e = (es, refl, h, sym e ∙ ap (λ run. run.result) h)
  stats_of s n k run (err e') stats h e = absurd (cc)

  -- Where an import ends well, it has received the records that the limit leaves, and each of them
  -- is inserted, ignored or skipped.
  pub import_adds_up :
      (earlier : Earlier T) (now : T) (store : LocalStore) (req : ImportRequest)
      (stats : ImportStats)
      → (import_into_store earlier now store req).result ≡ ok stats
      → (stats.received ≡ length (records_of req))
        × (stats.received ≡ stats.inserted + stats.ignored + stats.skipped)
  import_adds_up earlier now store req stats h =
      let (es, kept, run, numbers) =
        stats_of (import_start store) _ _ _ _ stats
          (import_into_store-IsOutcome earlier now store req) h in
      let rest = kept_entries-IsRest earlier req (length (records_of req)) now 0 (records_of req) in
      let sum = (insert_entries_lem store es).1 in
      let count =
        subst (IsRest (length (records_of req)) (skipped_count req (records_of req))) kept rest in
      let values = ok_injective numbers in
      (
        omega (arith, ap (λ s. s.received) values),
        omega (
          arith,
          ap (λ s. s.received) values,
          ap (λ s. s.inserted) values,
          ap (λ s. s.ignored) values,
          ap (λ s. s.skipped) values,
          count,
          sum,
        ),
      )

  flush-IsOrdered : (s : ImportState T) → IsOrdered s.store → IsOrdered (flush s).store
  unfolding flush
  flush-IsOrdered s w = insert_entries-IsOrdered s.store s.buf w

  push_entry-IsOrdered :
      (s : ImportState T) (e : Entry T) → IsOrdered s.store → IsOrdered (push_entry s e).store
  unfolding push_entry
  push_entry-IsOrdered s e w = elim (Bool-cases (leb batch_size (length (s.buf ++ e ∷ [])))) [
    | inl full ↦ rw full (flush-IsOrdered (record s { buf = s.buf ++ e ∷ [] }) w)
    | inr room ↦ rw room w
  ]

  abbrev IsOrderedStep : Result (ImportState T) → Type 0
  IsOrderedStep (ok s) = IsOrdered s.store
  IsOrderedStep (err e) = Unit

  step-IsOrdered :
      (earlier : Earlier T) (req : ImportRequest) (total : ℕ) (now : T) (i : ℕ) (r : HistoryRecord)
      (s : ImportState T)
      → IsOrdered s.store
      → IsOrderedStep (import_step earlier req total now i r s)
  unfolding import_step
  step-IsOrdered earlier req total now i r s w = elim (Bool-cases (is_skipped req (trim r.cmd))) [
    | inl skip ↦ rw (skip, IsOrderedStep) w
    | inr keep ↦ elim (Result-cases (import_record earlier req total now i r)) [
      | inl (e, made) ↦ rw (keep, made, IsOrderedStep) (push_entry-IsOrdered _ e w)
      | inr (e, bad) ↦ rw (keep, bad, IsOrderedStep) tt
    ]
  ]

  loop-IsOrdered :
      (earlier : Earlier T) (req : ImportRequest) (total : ℕ) (now : T) (i : ℕ)
      (rs : List HistoryRecord) (s : ImportState T)
      → IsOrdered s.store
      → IsOrdered (import_loop earlier req total now i rs s).store
  unfolding import_loop
  loop-IsOrdered earlier req total now i [] s w = elim (Bool-cases (is_empty s.buf)) [
    | inl done ↦ rw done w
    | inr more ↦ rw more (flush-IsOrdered s w)
  ]
  loop-IsOrdered earlier req total now i (r ∷ rs) s w =
      elim (Result-cases (import_step earlier req total now i r s)) [
        | inl (s', e) ↦
            rw (e, import_loop)
              (loop-IsOrdered earlier req total now (i + 1) rs s'
                (subst IsOrderedStep e (step-IsOrdered earlier req total now i r s w)))
        | inr (e, h) ↦ rw (h, import_loop) w
      ]

  -- However an import ends, the keys still rise up to the mark and no entry id stands twice.
  pub import-IsOrdered :
      (earlier : Earlier T) (now : T) (store : LocalStore) (req : ImportRequest)
      → IsOrdered store
      → IsOrdered (import_into_store earlier now store req).store
  unfolding import_into_store
  import-IsOrdered earlier now store req w =
      loop-IsOrdered earlier req (length (records_of req)) now 0 (records_of req)
        (import_start store) w
