-- ===== src/Sync/Push/Complete.antt =====
-- src/sync.rs: how a push run ends, against a far side that refuses only what is too large.
use rustory.Prelude.{
  ℕ, zero, suc, ℤ, pos, ◌+◌, ◌≤◌, ◌<◌, Text, Bool, true, false, ◌||◌, Option, none, some, List, [],
  ◌∷◌, ◌++◌, ◌≡◌, refl, ap, sym, ◌∙◌, ◌⊎◌, arith, length, length-append, leb, leb_ℤ, ◌==◌, inl, inr,
  as_i64, All,
}
use mathlib.Core.List.{append-nil}
use mathlib.Core.Path.{subst}
use rustory.Errors.{Error, ok, err}
use rustory.Core.{Entry, TimeApi}
use rustory.Loop.{Step, Keeps, Keeps-and, run_loop_total}
use rustory.Storage.Schema.{Row, LocalStore, limit_rows}
use rustory.Storage.Entries.{has_id}
use rustory.Storage.Entries.Invariant.{
  IsWellFormed, IsReadable, Rising, All-keep_if, All-limit_rows,
}
use rustory.Storage.Entries.Paging.{
  after, page, next_of, last_key, of_source, page_next, Rising-of_source, after-of_device,
}
use rustory.Storage.Entries.Pull.{entries_of, length-entries_of}
use rustory.Storage.Peers.{get_last_pushed_seq}
use rustory.Storage.Prune.{count_pending_push_entries, count_entries_after_seq}
use rustory.Sync.{Run, is_payload_too_large_error}
use rustory.Sync.Push.{
  PushState, PushFn, push_advance, push_answer, push_entries, push_read, push_step, push_start,
  sync_push_to_peer,
}
use rustory.Sync.Push.Delivered.{
  IsSink, IsFrame, IsPushed, IsEndOfPush, IsPushSpan, IsReadable-of_source,
}
use rustory.Sync.Push.NoGap.{push_batch_lem, step-Keeps, start_span}
use rustory.Sync.Pull.Complete.{IsOk, halved-lt}

-- The far side takes every batch, unless one of more than one entry is too large for it.
abbrev pub IsObligingSink : {T R : Type 0} → PushFn T R → Type 0
IsObligingSink {T} {R} push =
    (remote : R) (es : List (Entry T))
    → ((push remote es).0 ≡ ok tt)
      ⊎ ((e : Error) × ((push remote es).0 ≡ err e)
          × (is_payload_too_large_error e ≡ true)
          × (1 < length es))

-- The number of pending entries is that of the rows of the source past the push cursor.
pub count_pending-after :
    (db : LocalStore) (peer_id : Text) (source : Option Text)
    → count_pending_push_entries db peer_id source
      ≡ length (after (get_last_pushed_seq db peer_id) (of_source source db.entries))
unfolding count_pending_push_entries count_entries_after_seq
count_pending-after db peer_id none = refl
count_pending-after db peer_id (some d) =
    ap length (after-of_device (get_last_pushed_seq db peer_id) d db.entries)

page_of_two :
    (cursor : ℤ) (limit : ℕ) (rows : List Row) → 1 < length (page cursor limit rows) → 1 < limit
page_of_two cursor limit rows h = small limit (after cursor rows) h
  where
    small : (limit : ℕ) (rows : List Row) → 1 < length (limit_rows (as_i64 limit) rows) → 1 < limit
    small zero rows h = absurd (omega arith)
    small (suc zero) [] h = absurd (omega arith)
    small (suc zero) (x ∷ rows) h = absurd (omega arith)
    small (suc (suc n)) rows h = omega arith

abbrev pub push_rounds : {R : Type 0} → List Row → PushState R → ℕ
push_rounds rows s = length (after s.cursor rows) + s.batch_limit

module _ {R : Type 0} (rows : List Row) (bound : ℕ) where
  abbrev Progress : Step (PushState R) (Run R ℕ) → Type 0
  Progress = Keeps (λ s. push_rounds rows s < bound) (λ run. IsOk run.result)

  advance-Progress :
      (peer_id : Text) (limit lo hi : ℕ) (s : PushState R) (x : Row) (more : List Row)
      → Rising lo rows hi
      → page s.cursor limit rows ≡ x ∷ more
      → push_rounds rows s ≤ bound
      → Progress (push_advance peer_id s (next_of (x ∷ more)))
  unfolding push_advance
  advance-Progress peer_id limit lo hi s x more r is_page b =
      let following = page_next s.cursor limit lo hi rows next_key r (ap next_of is_page) in
      let past : leb_ℤ next_key s.cursor ≡ false = ground (arith, following.0) in
      rw past (
        omega (
          arith,
          ap length following.1,
          ap length is_page,
          length-append (page s.cursor limit rows) (after next_key rows),
        ))
    where
      next_key : ℤ
      next_key = pos (last_key x.ingest_seq more)

  refused-Progress :
      (peer_id : Text) (s : PushState R) (n : ℕ) (next : Option ℤ) (e : Error)
      → is_payload_too_large_error e ≡ true
      → 1 < s.batch_limit
      → push_rounds rows s ≤ bound
      → Progress (push_answer peer_id s n next (err e))
  unfolding push_answer
  refused-Progress peer_id s n next e t h b =
      let more : leb s.batch_limit 1 ≡ false = ground arith in
      rw (t, more) (omega (arith, halved-lt s.batch_limit h))

module _ {T R : Type 0} ⦃time : TimeApi T⦄ (peer_id : Text) (push : PushFn T R)
    (obliging : IsObligingSink push) where
  entries-Progress :
      (rows : List Row) (bound lo hi : ℕ) (s : PushState R) (front : List Row) (es : List (Entry T))
      → Rising lo rows hi
      → page s.cursor s.batch_limit rows ≡ front
      → All (IsReadable time) front
      → entries_of time front ≡ es
      → push_rounds rows s ≤ bound
      → Progress rows bound (push_entries push peer_id s es (next_of front))
  unfolding push_entries entries_of push_answer
  entries-Progress rows bound lo hi s front [] r is_page h read b = (_, refl)
  entries-Progress rows bound lo hi s [] (e ∷ es) r is_page h read b = cc
  entries-Progress rows bound lo hi s (x ∷ front) (e ∷ es) r is_page h read b =
      elim (obliging s.remote (e ∷ es)) [
        | inl good ↦ rw good (
            advance-Progress rows bound peer_id s.batch_limit lo hi
              (record s {
                remote = (push s.remote (e ∷ es)).1;
                pushed_total = s.pushed_total + length (e ∷ es);
              })
              x front r is_page b)
        | inr (f, bad, large, two) ↦ rw bad (
            refused-Progress rows bound peer_id (record s { remote = (push s.remote (e ∷ es)).1 })
              (length (e ∷ es)) (next_of (x ∷ front)) f large
              (page_of_two s.cursor s.batch_limit rows (
                omega (
                  arith,
                  two,
                  ap length is_page,
                  length-entries_of time (x ∷ front) h,
                  ap length read,
                )))
              b)
      ]

  step-Progress :
      (db : LocalStore) (source : Option Text) (s : PushState R)
      → IsWellFormed time db
      → IsFrame time peer_id db s.local
      → Progress
          (of_source source db.entries)
          (push_rounds (of_source source db.entries) s)
          (push_step push peer_id source s)
  unfolding push_step push_read
  step-Progress db source s w f =
      let rows = of_source source db.entries in
      rw (push_batch_lem peer_id db source (λ (r : R) id. false) (λ id. false) s f) (
        entries-Progress rows (push_rounds rows s) 0 db.entries_mark s
          (page s.cursor s.batch_limit rows) (entries_of time (page s.cursor s.batch_limit rows))
          (Rising-of_source source 0 db.entries_mark db.entries w.rising) refl
          (All-limit_rows (IsReadable time) (as_i64 s.batch_limit) _
            (All-keep_if (IsReadable time) _ rows (IsReadable-of_source time source db w)))
          refl (omega arith))

same_truth : (a b : Bool) → (a ≡ true → b ≡ true) → (b ≡ true → a ≡ true) → a ≡ b
same_truth a b f g = ground (arith, f, g)

conclude :
    {T R : Type 0} (time : TimeApi T) (db : LocalStore) (peer_id : Text) (source : Option Text)
    (taken : R → Text → Bool) (before : Text → Bool) (run : Run R ℕ)
    → IsPushed time peer_id db source taken before run
    → IsOk run.result
    → (run.result ≡ ok (count_pending_push_entries db peer_id source))
      × (count_pending_push_entries run.local peer_id source ≡ 0)
      × ((id : Text)
          → taken run.remote id ≡ (
              before id
              || has_id id (after (get_last_pushed_seq db peer_id) (of_source source db.entries))))
conclude time db peer_id source taken before run p (n, is_ok) = (
  is_ok ∙ ap ok (finish.1 ∙ ap length (sym all) ∙ sym (count_pending-after db peer_id source)),
  count_pending-after run.local peer_id source
      ∙ ap (λ l. length (after (get_last_pushed_seq run.local peer_id) (of_source source l)))
          p.frame.entries
      ∙ ap length finish.0,
  λ id.
      same_truth (taken run.remote id) _ (p.progress.only id)
        (λ h. p.progress.delivered id (ap (λ l. before id || has_id id l) (sym all) ∙ h)),
)
  where
    finish :
        (after (get_last_pushed_seq run.local peer_id) (of_source source db.entries) ≡ [])
        × (n ≡ length p.progress.done)
    finish =
        subst
          (IsEndOfPush (of_source source db.entries) (get_last_pushed_seq run.local peer_id)
            p.progress.done)
          is_ok p.end

    all : after (get_last_pushed_seq db peer_id) (of_source source db.entries) ≡ p.progress.done
    all = p.progress.split ∙ ap (λ l. p.progress.done ++ l) finish.0 ∙ append-nil p.progress.done

-- From a local store with rising keys, unique ids and readable times, and with a limit above zero, to
-- a far side that loses no id, adds no id but those of a batch pushed to it, has all of a batch that
-- it accepts, and only refuses batches of two entries or more, as too large: more rounds of fuel than
-- pending entries plus the limit are enough. The run returns, with no error, the number of entries
-- that were pending for the peer; the ids at the far side are those that were there before and those
-- of the pending entries, and no other; and none is pending afterwards.
pub sync_push_complete :
    {T R : Type 0} (time : TimeApi T) (fuel : ℕ) (db : LocalStore) (peer_id : Text) (limit : ℕ)
    (source : Option Text) (push : PushFn T R) (taken : R → Text → Bool) (remote : R)
    → IsWellFormed time db
    → 0 < limit
    → IsSink push taken
    → IsObligingSink push
    → count_pending_push_entries db peer_id source + limit < fuel
    → (run : Run R ℕ) × (sync_push_to_peer ⦃time = time⦄ fuel db peer_id limit source push remote
        ≡ some run)
      × (run.result ≡ ok (count_pending_push_entries db peer_id source))
      × (count_pending_push_entries run.local peer_id source ≡ 0)
      × ((id : Text)
          → taken run.remote id ≡ (
              taken remote id
              || has_id id (after (get_last_pushed_seq db peer_id) (of_source source db.entries))))
unfolding sync_push_to_peer
sync_push_complete time fuel db peer_id limit source push taken remote w room sink obliging enough =
    let rows = of_source source db.entries in
    let nonzero : (limit == 0) ≡ false = ground arith in
    let (run, returns, good) =
      run_loop_total (IsPushSpan time peer_id db source taken (taken remote))
        (λ run. IsPushed time peer_id db source taken (taken remote) run × IsOk run.result)
        (push_step ⦃time = time⦄ push peer_id source) (push_rounds rows)
        (λ s p.
          Keeps-and (IsPushSpan time peer_id db source taken (taken remote))
            (IsPushed time peer_id db source taken (taken remote))
            (λ s'. push_rounds rows s' < push_rounds rows s) (λ run. IsOk run.result)
            (push_step ⦃time = time⦄ push peer_id source s)
            (step-Keeps ⦃time = time⦄ peer_id db source taken (taken remote) push sink w s p)
            (step-Progress ⦃time = time⦄ peer_id push obliging db source s w p.frame))
        fuel (push_start db peer_id limit remote)
        (start_span time db peer_id limit source taken remote w room)
        (unfold push_start in omega (arith, count_pending-after db peer_id source)) in
    let (result, pending, took) =
      conclude time db peer_id source taken (taken remote) run good.0 good.1 in
    rw nonzero (run, returns, result, pending, took)
