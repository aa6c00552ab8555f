-- ===== src/HistoryImport/Batches.antt =====
-- src/history_import.rs: what an import does, without its batches.
use rustory.Prelude.{
  ℕ, suc, ◌+◌, true, false, List, [], ◌∷◌, ◌++◌, ◌≡◌, refl, ◌∙◌, ap, sym, arith, length, leb,
  is_empty, if◌then◌else◌, Bool-cases, inl, inr,
}
use rustory.Prelude.Words.{trim}
use rustory.Errors.{Error, Result, ok, err, ◌>>=◌, Result-cases}
use rustory.Core.{Entry, TimeApi, UuidApi}
use rustory.Storage.Schema.{Sqlite, LocalStore}
use rustory.Storage.Entries.{insert_entries_with_stats}
use rustory.Storage.Entries.Repeat.{insert_entries-append}
use rustory.HistoryImport.Parse.{HistoryRecord}
use rustory.HistoryImport.{
  ImportRequest, ImportStats, ImportState, ImportRun, Earlier, batch_size, is_skipped,
  import_record, flush, push_entry, import_step, import_loop,
}

unfoldable pub skipped_count : ImportRequest → List HistoryRecord → ℕ
skipped_count req [] = 0
skipped_count req (r ∷ rs) =
    let rest = skipped_count req rs in if is_skipped req (trim r.cmd) then suc rest else rest

append_nil {ℓ} : {A : Type ℓ} (xs : List A) → xs ++ [] ≡ xs
append_nil [] = refl
append_nil (x ∷ xs) = ap (λ l. x ∷ l) (append_nil xs)

append_assoc {ℓ} : {A : Type ℓ} (xs ys zs : List A) → (xs ++ ys) ++ zs ≡ xs ++ (ys ++ zs)
append_assoc [] ys zs = refl
append_assoc (x ∷ xs) ys zs = ap (λ l. x ∷ l) (append_assoc xs ys zs)

abbrev pub outcome : ℕ → ℕ → ℕ → ℕ → LocalStore → ImportRun
outcome received inserted ignored skipped store = record {
  result =
      ok
        (record { received = received; inserted = inserted; ignored = ignored; skipped = skipped });
  store = store;
}

pub outcome_cong :
    {a a' b b' c c' d d' : ℕ} {s s' : LocalStore}
    → a ≡ a'
    → b ≡ b'
    → c ≡ c'
    → d ≡ d'
    → s ≡ s'
    → outcome a b c d s ≡ outcome a' b' c' d' s'
outcome_cong ha hb hc hd hs = rw (ha, hb, hc, hd, hs) refl

module _ {T : Type 0} ⦃time : TimeApi T⦄ ⦃uuid : UuidApi⦄ where
  -- The entries of the records that are not skipped, or the first error.
  unfoldable pub kept_entries :
      Earlier T → ImportRequest → ℕ → T → ℕ → List HistoryRecord → Result (List (Entry T))
  kept_entries earlier req total now i [] = ok []
  kept_entries earlier req total now i (r ∷ rs) = elim (is_skipped req (trim r.cmd)) [
    | true ↦ kept_entries earlier req total now (i + 1) rs
    | false ↦ import_record earlier req total now i r >>= λ e.
        kept_entries earlier req total now (i + 1) rs >>= λ es. ok (e ∷ es)
  ]

  module _ (earlier : Earlier T) (req : ImportRequest) (total : ℕ) (now : T) (i : ℕ)
      (r : HistoryRecord) (rs : List HistoryRecord) where
    pub kept_skipped :
        is_skipped req (trim r.cmd) ≡ true
        → (kept_entries earlier req total now i (r ∷ rs)
            ≡ kept_entries earlier req total now (i + 1) rs)
          × (skipped_count req (r ∷ rs) ≡ suc (skipped_count req rs))
    unfolding kept_entries skipped_count
    kept_skipped skip = (rw (skip, kept_entries) refl, rw skip refl)

    pub kept_made :
        (e : Entry T)
        → is_skipped req (trim r.cmd) ≡ false
        → import_record earlier req total now i r ≡ ok e
        → (kept_entries earlier req total now i (r ∷ rs)
            ≡ (kept_entries earlier req total now (i + 1) rs >>= λ es. ok (e ∷ es)))
          × (skipped_count req (r ∷ rs) ≡ skipped_count req rs)
    unfolding kept_entries skipped_count
    kept_made e keep made = (rw (keep, made, kept_entries) refl, rw keep refl)

    pub kept_failed :
        (e : Error)
        → is_skipped req (trim r.cmd) ≡ false
        → import_record earlier req total now i r ≡ err e
        → kept_entries earlier req total now i (r ∷ rs) ≡ err e
    unfolding kept_entries
    kept_failed e keep bad = rw (keep, bad, kept_entries) refl

-- The state with one record more received, and skipped.
abbrev receive : {T : Type 0} → ImportState T → ImportState T
receive s = record s { stats = record s.stats { received = s.stats.received + 1 } }

abbrev skip_one : {T : Type 0} → ImportState T → ImportState T
skip_one s = record s {
  stats = record s.stats { received = s.stats.received + 1; skipped = s.stats.skipped + 1 };
}

module _ {T : Type 0} ⦃time : TimeApi T⦄ ⦃sql : Sqlite⦄ where
  -- The end of an import that stores the buffer and then some entries, all at once.
  abbrev pub at_once : ImportState T → ℕ → ℕ → List (Entry T) → ImportRun
  at_once s received skipped es =
      let (store, stats) = insert_entries_with_stats s.store (s.buf ++ es) in
      outcome (s.stats.received + received) (s.stats.inserted + stats.inserted)
        (s.stats.ignored + stats.ignored) (s.stats.skipped + skipped) store

  at_once-push_entry :
      (s : ImportState T) (e : Entry T) (n k : ℕ) (es : List (Entry T))
      → at_once (push_entry s e) n k es ≡ at_once s n k (e ∷ es)
  unfolding push_entry flush
  at_once-push_entry s e n k es = elim (Bool-cases (leb batch_size (length (s.buf ++ e ∷ [])))) [
    | inl full ↦
        let parts = insert_entries-append s.store (s.buf ++ e ∷ []) es in
        let assoc = append_assoc s.buf (e ∷ []) es in
        rw (full, sym assoc, parts.0, parts.1, parts.2)
          (outcome_cong refl (omega arith) (omega arith) refl refl)
    | inr room ↦ rw (room, append_assoc s.buf (e ∷ []) es) refl
  ]

  at_once-end :
      (store : LocalStore) (stats : ImportStats) (buf : List (Entry T))
      → let s : ImportState T = record { store = store; stats = stats; buf = buf } in
        let s' : ImportState T = if is_empty buf then s else flush s in
        outcome s'.stats.received s'.stats.inserted s'.stats.ignored s'.stats.skipped s'.store
        ≡ at_once s 0 0 []
  unfolding flush insert_entries_with_stats
  at_once-end store stats [] =
      outcome_cong (omega arith) (omega arith) (omega arith) (omega arith) refl
  at_once-end store stats (e ∷ buf) =
      rw (append_nil buf) (outcome_cong (omega arith) refl refl (omega arith) refl)

-- How an import ends, from the entries that it keeps: all stored at once with the numbers summed up, or
-- an error.
abbrev pub IsOutcome :
    {T : Type 0}
    → ⦃time : TimeApi T⦄ → ⦃sql : Sqlite⦄ → ImportState T
    → ℕ
    → ℕ
    → ImportRun
    → Result (List (Entry T))
    → Type 0
IsOutcome s n k run (ok es) = run ≡ at_once s n k es
IsOutcome s n k run (err e) = run.result ≡ err e

module _ {T : Type 0} ⦃time : TimeApi T⦄ ⦃uuid : UuidApi⦄ ⦃sql : Sqlite⦄ (earlier : Earlier T)
    (req : ImportRequest) (total : ℕ) (now : T) where
  loop_skipped :
      (s : ImportState T) (n k : ℕ) (run : ImportRun) (kept : Result (List (Entry T)))
      → IsOutcome (skip_one s) n k run kept
      → IsOutcome s (suc n) (suc k) run kept
  loop_skipped s n k run (ok es) h = h ∙ outcome_cong (omega arith) refl refl (omega arith) refl
  loop_skipped s n k run (err e) h = h

  loop_pushed :
      (s : ImportState T) (e : Entry T) (n k : ℕ) (run : ImportRun) (kept : Result (List (Entry T)))
      → IsOutcome (push_entry (receive s) e) n k run kept
      → IsOutcome s (suc n) k run (kept >>= λ es. ok (e ∷ es))
  loop_pushed s e n k run (ok es) h =
      h ∙ at_once-push_entry (receive s) e n k es ∙ outcome_cong (omega arith) refl refl refl refl
  loop_pushed s e n k run (err e') h = h

  module _ (i : ℕ) (r : HistoryRecord) (rs : List HistoryRecord) (s : ImportState T) where
    loop_on :
        (s' : ImportState T)
        → import_step earlier req total now i r s ≡ ok s'
        → import_loop earlier req total now i (r ∷ rs) s
          ≡ import_loop earlier req total now (i + 1) rs s'
    unfolding import_loop
    loop_on s' e = rw (e, import_loop) refl

    loop_off :
        (e : Error)
        → import_step earlier req total now i r s ≡ err e
        → import_loop earlier req total now i (r ∷ rs) s
          ≡ record { result = err e; store = s.store }
    unfolding import_loop
    loop_off e h = rw (h, import_loop) refl

  pub import_loop-IsOutcome :
      (i : ℕ) (rs : List HistoryRecord) (s : ImportState T)
      → IsOutcome s
          (length rs)
          (skipped_count req rs)
          (import_loop earlier req total now i rs s)
          (kept_entries earlier req total now i rs)
  unfolding kept_entries skipped_count import_step
  import_loop-IsOutcome i [] s = unfold import_loop in at_once-end s.store s.stats s.buf
  import_loop-IsOutcome i (r ∷ rs) s = elim (Bool-cases (is_skipped req (trim r.cmd))) [
    | inl skip ↦
        let on = loop_on i r rs s (skip_one s) (rw skip refl) in
        let (kept, count) = kept_skipped earlier req total now i r rs skip in
        rw (on, kept, count)
          (loop_skipped s _ _ _ (kept_entries earlier req total now (i + 1) rs)
            (import_loop-IsOutcome (i + 1) rs _))
    | inr keep ↦ elim (Result-cases (import_record earlier req total now i r)) [
      | inl (e, made) ↦
          let on = loop_on i r rs s (push_entry (receive s) e) (rw (keep, made) refl) in
          let (kept, count) = kept_made earlier req total now i r rs e keep made in
          rw (on, kept, count)
            (loop_pushed s e _ _ _ (kept_entries earlier req total now (i + 1) rs)
              (import_loop-IsOutcome (i + 1) rs _))
      | inr (e, bad) ↦
          rw
            (
              loop_off i r rs s e (rw (keep, bad) refl),
              kept_failed earlier req total now i r rs e keep bad,
            )
            refl
    ]
  ]
