-- ===== src/Sync/Pull/Complete.antt =====
-- src/sync.rs: how a pull run ends, against a far side that refuses only what is too large.
use rustory.Prelude.{
  ℕ, ℤ, pos, ◌+◌, ◌≤◌, ◌<◌, Text, true, false, some, List, [], ◌∷◌, ◌≡◌, refl, ap, sym, ◌∙◌, ◌⊎◌,
  arith, length, length-append, leb, leb_ℤ, ◌==◌, inl, inr,
}
use rustory.Errors.{Error, Result, ok, err}
use rustory.Core.{Entry, TimeApi}
use rustory.Loop.{Step, Keeps, Keeps-and, run_loop_total}
use rustory.Storage.Schema.{Sqlite, Row, LocalStore}
use rustory.Storage.Entries.{PullBatch, pull_since_cursor}
use rustory.Storage.Entries.Invariant.{IsWellFormed, Rising}
use rustory.Storage.Entries.Paging.{after, page, next_of, last_key, page_next}
use rustory.Storage.Entries.Pull.{entries_of, pull_since_cursor_lem}
use rustory.Storage.Peers.{get_last_cursor}
use rustory.Sync.{PullStats, Run, is_payload_too_large_error, halved}
use rustory.Sync.Pull.{
  PullState, PullFn, pull_failed, pull_advance, pull_received, pull_answer, pull_step, pull_start,
  sync_pull_from_peer,
}
use rustory.Sync.Pull.NoGap.{IsGapless, IsHonest, IsSpan, step_gap}

-- The far side answers from its store, unless a batch of more than one entry is too large for it.
abbrev pub IsObliging : {T R : Type 0} → TimeApi T → LocalStore → PullFn T R → Type 0
IsObliging {T} {R} time far pull =
    (remote : R) (cursor : ℤ) (limit : ℕ)
    → ((pull remote cursor limit).0 ≡ pull_since_cursor ⦃time = time⦄ far cursor limit)
      ⊎ ((e : Error) × ((pull remote cursor limit).0 ≡ err e)
          × (is_payload_too_large_error e ≡ true)
          × (1 < limit))

abbrev pub IsOk : {A : Type 0} → Result A → Type 0
IsOk {A} r = (a : A) × (r ≡ ok a)

-- The rows that are left and the limit: one of them falls in each round.
abbrev pub rounds : {R : Type 0} → List Row → PullState R → ℕ
rounds far s = length (after s.cursor far) + s.batch_limit

pub halved-lt : (n : ℕ) → 1 < n → halved n < n
unfolding halved
halved-lt n h = ground arith

module _ {R : Type 0} (far : List Row) (bound : ℕ) where
  abbrev Progress : Step (PullState R) (Run R PullStats) → Type 0
  Progress = Keeps (λ s. rounds far s < bound) (λ run. IsOk run.result)

  failed-Progress :
      (s : PullState R) (e : Error)
      → is_payload_too_large_error e ≡ true
      → 1 < s.batch_limit
      → rounds far s ≤ bound
      → Progress (pull_failed s e)
  unfolding pull_failed
  failed-Progress s e t h b =
      let more : leb s.batch_limit 1 ≡ false = ground arith in
      rw (t, more) (omega (arith, halved-lt s.batch_limit h))

  advance-Progress :
      (peer_id : Text) (limit lo hi : ℕ) (s : PullState R) (x : Row) (rows : List Row)
      → Rising lo far hi
      → page s.cursor limit far ≡ x ∷ rows
      → rounds far s ≤ bound
      → Progress (pull_advance peer_id s (next_of (x ∷ rows)))
  unfolding pull_advance
  advance-Progress peer_id limit lo hi s x rows r is_page b =
      let following = page_next s.cursor limit lo hi far next_key r (ap next_of is_page) in
      let past : leb_ℤ next_key s.cursor ≡ false = ground (arith, following.0) in
      rw past (
        omega (
          arith,
          ap length following.1,
          ap length is_page,
          length-append (page s.cursor limit far) (after next_key far),
        ))
    where
      next_key : ℤ
      next_key = pos (last_key x.ingest_seq rows)

module _ {T R : Type 0} ⦃time : TimeApi T⦄ ⦃sql : Sqlite⦄ (peer_id : Text) (far : LocalStore)
    (w : IsWellFormed time far) where
  received-Progress :
      (bound : ℕ) (s : PullState R) (rows : List Row) (es : List (Entry T))
      → page s.cursor s.batch_limit far.entries ≡ rows
      → entries_of time rows ≡ es
      → rounds far.entries s ≤ bound
      → Progress far.entries bound (pull_received peer_id s es (next_of rows))
  unfolding pull_received entries_of
  received-Progress bound s rows [] is_page read b = (_, refl)
  received-Progress bound s [] (e ∷ es) is_page read b = cc
  received-Progress bound s (x ∷ rows) (e ∷ es) is_page read b =
      advance-Progress far.entries bound peer_id s.batch_limit 0 far.entries_mark _ x rows w.rising
        is_page b

  answer-Progress :
      (bound : ℕ) (s : PullState R) (a : Result (PullBatch T))
      → (a ≡ pull_since_cursor far s.cursor s.batch_limit)
        ⊎ ((e : Error) × (a ≡ err e) × (is_payload_too_large_error e ≡ true) × (1 < s.batch_limit))
      → rounds far.entries s ≤ bound
      → Progress far.entries bound (pull_answer peer_id s a)
  unfolding pull_answer
  answer-Progress bound s a (inr (e, same, large, h)) b =
      rw same (failed-Progress far.entries bound s e large h b)
  answer-Progress bound s a (inl same) b =
      rw (same, pull_since_cursor_lem far s.cursor s.batch_limit w)
        (received-Progress bound s (page s.cursor s.batch_limit far.entries) _ refl refl b)

  step-Progress :
      (pull : PullFn T R) (s : PullState R)
      → IsObliging time far pull
      → Progress far.entries (rounds far.entries s) (pull_step pull peer_id s)
  unfolding pull_step
  step-Progress pull s obliging =
      answer-Progress (rounds far.entries s) _ (pull s.remote s.cursor s.batch_limit).0
        (obliging s.remote s.cursor s.batch_limit) (omega arith)

  pub IsHonest-of_obliging : (pull : PullFn T R) → IsObliging time far pull → IsHonest time far pull
  IsHonest-of_obliging pull obliging remote cursor limit batch h = go (obliging remote cursor limit)
    where
      go :
          ((pull remote cursor limit).0 ≡ pull_since_cursor far cursor limit)
            ⊎ ((e : Error) × ((pull remote cursor limit).0 ≡ err e)
                × (is_payload_too_large_error e ≡ true)
                × (1 < limit))
          → pull_since_cursor far cursor limit ≡ ok batch
      go (inl same) = sym same ∙ h
      go (inr (e, same, _, _)) = cc

  -- Against a far side that only refuses batches of two entries or more, as too large, more rounds
  -- of fuel than rows past the cursor plus the limit are enough: the run returns, with no error,
  -- every row that the far side has past the cursor is in the table by its entry id, none is left
  -- past the new cursor, and `received` is their number.
  pub sync_pull_complete :
      (fuel : ℕ) (db : LocalStore) (limit : ℕ) (pull : PullFn T R) (remote : R)
      → 0 < limit
      → IsObliging time far pull
      → length (after (get_last_cursor db peer_id) far.entries) + limit < fuel
      → (run : Run R PullStats) × (sync_pull_from_peer fuel db peer_id limit pull remote ≡ some run)
        × IsGapless peer_id far.entries (get_last_cursor db peer_id) run
        × IsOk run.result
  unfolding sync_pull_from_peer
  sync_pull_complete fuel db limit pull remote room obliging enough =
      let start = get_last_cursor db peer_id in
      let nonzero : (limit == 0) ≡ false = ground arith in
      let (run, returns, good) =
        run_loop_total (IsSpan peer_id far.entries start)
          (λ run. IsGapless peer_id far.entries start run × IsOk run.result)
          (pull_step pull peer_id) (rounds far.entries)
          (λ s p.
            Keeps-and (IsSpan peer_id far.entries start) (IsGapless peer_id far.entries start)
              (λ s'. rounds far.entries s' < rounds far.entries s) (λ run. IsOk run.result)
              (pull_step pull peer_id s)
              (step_gap peer_id far start w pull s (IsHonest-of_obliging pull obliging) p)
              (step-Progress pull s obliging))
          fuel (pull_start db peer_id limit remote)
          (record {
            at_cursor = refl;
            room = room;
            caught_up = record { done = []; split = refl; present = tt };
            counted = refl;
          })
          enough in
      rw nonzero (run, returns, good.0, good.1)
