-- ===== src/Sync/Pull/NoGap.antt =====
-- src/sync.rs: the rows that a pull run stores, from a far side that answers from its own store.
use mathlib.Core.Path.{subst}
use mathlib.Core.List.{append_assoc}
use rustory.Prelude.{
  ℕ, ℤ, pos, ◌+◌, ◌<◌, Text, true, false, some, List, [], ◌∷◌, ◌++◌, ◌≡◌, refl, ap, sym, ◌∙◌, arith,
  length, length-append, All, as_i64, leb, leb_ℤ, ◌==◌, Bool-cases, inl, inr,
}
use rustory.Errors.{Error, Result, ok, err, ok_injective}
use rustory.Core.{Entry, TimeApi}
use rustory.Loop.{Step, Keeps, run_loop_partial}
use rustory.Storage.Schema.{Sqlite, Row, LocalStore}
use rustory.Storage.Entries.{PullBatch, has_id, pull_since_cursor}
use rustory.Storage.Entries.Invariant.{
  IsWellFormed, Rising, IsReadable, All-map, All-append, All-keep_if, All-limit_rows,
}
use rustory.Storage.Entries.Insert.{has_id-append, insert_entries_lem}
use rustory.Storage.Entries.Paging.{after, page, next_of, last_key, page_nil, page_next}
use rustory.Storage.Entries.Pull.{
  entries_of, entries_of_cons, readable_entry, row_to_entry-entry_id, length-entries_of,
  pull_since_cursor_lem,
}
use rustory.Storage.Peers.{get_last_cursor, set_last_cursor}
use rustory.Storage.Peers.Cursors.{get_last_cursor-set_self}
use rustory.Sync.{PullStats, Run, is_payload_too_large_error, halved}
use rustory.Sync.Pull.{
  PullState, PullFn, pull_failed, pull_advance, pull_received, pull_answer, pull_step, pull_start,
  sync_pull_from_peer,
}

-- The rows that `far` has past the cursor `start`, up to the cursor `now`, are in the table `entries`
-- by their entry ids; the other rows past `start` are those past `now`.
pub record IsCaughtUp (far entries : List Row) (start now : ℤ) : Type 0 where
  pub done : List Row
  pub split : after start far ≡ done ++ after now far
  pub present : All (λ r. has_id r.entry_id entries ≡ true) done

present_append :
    (rows more done : List Row)
    → All (λ r. has_id r.entry_id rows ≡ true) done
    → All (λ r. has_id r.entry_id (rows ++ more) ≡ true) done
present_append rows more done h =
    All-map (λ r p. ground (arith, has_id-append r.entry_id rows more, p)) done h

module _ {T : Type 0} (time : TimeApi T) where
  present_entries :
      (table rows : List Row)
      → All (IsReadable time) rows
      → All (λ e. has_id e.entry_id table ≡ true) (entries_of time rows)
      → All (λ r. has_id r.entry_id table ≡ true) rows
  unfolding entries_of
  present_entries table [] h p = tt
  present_entries table (r ∷ rows) h p =
      let (e, d) = readable_entry time r h.0 in
      let p' : All (λ e. has_id e.entry_id table ≡ true) (e ∷ entries_of time rows) =
        subst (All (λ e. has_id e.entry_id table ≡ true)) (entries_of_cons time r e rows d) p in
      (rw (← row_to_entry-entry_id ⦃time = time⦄ r e d) p'.0, present_entries table rows h.1 p'.1)

-- A run that ended well has no row left to pull, and counts each row once.
abbrev pub IsEndOfFar : List Row → ℤ → List Row → Result PullStats → Type 0
IsEndOfFar far now done (ok stats) = (after now far ≡ []) × (stats.received ≡ length done)
IsEndOfFar far now done (err e) = Unit

pub record IsGapless {R : Type 0} (peer_id : Text) (far : List Row) (start : ℤ)
    (run : Run R PullStats) : Type 0 where
  pub caught_up : IsCaughtUp far run.local.entries start (get_last_cursor run.local peer_id)
  pub end : IsEndOfFar far (get_last_cursor run.local peer_id) caught_up.done run.result

-- Every answer of the far side that is no error is what its store `far` returns.
abbrev pub IsHonest : {T R : Type 0} → TimeApi T → LocalStore → PullFn T R → Type 0
IsHonest {T} {R} time far pull =
    (remote : R) (cursor : ℤ) (limit : ℕ) (batch : PullBatch T)
    → (pull remote cursor limit).0 ≡ ok batch
    → pull_since_cursor ⦃time = time⦄ far cursor limit ≡ ok batch

pub nil_of_length : (rows : List Row) → length rows ≡ 0 → rows ≡ []
nil_of_length [] h = refl
nil_of_length (x ∷ rows) h = absurd (omega arith)

-- The loop's variables agree with the store and with the rows of the far side.
pub record IsSpan {R : Type 0} (peer_id : Text) (far : List Row) (start : ℤ) (s : PullState R)
    : Type 0 where
  pub at_cursor : get_last_cursor s.local peer_id ≡ s.cursor
  pub room : 0 < s.batch_limit
  pub caught_up : IsCaughtUp far s.local.entries start s.cursor
  pub counted : s.received_total ≡ length caught_up.done

pub halved_pos : (n : ℕ) → 0 < halved n
unfolding halved
halved_pos n = ground arith

module _ {R : Type 0} (peer_id : Text) (far : List Row) (start : ℤ) where
  abbrev Keeping : Step (PullState R) (Run R PullStats) → Type 0
  Keeping = Keeps (IsSpan peer_id far start) (IsGapless peer_id far start)

  IsGapless-error :
      (s : PullState R) (e : Error)
      → IsSpan peer_id far start s
      → IsGapless peer_id far start (record { result = err e; local = s.local; remote = s.remote })
  IsGapless-error s e p = record { caught_up = rw p.at_cursor p.caught_up; end = tt }

  failed_gap :
      (s : PullState R) (e : Error) → IsSpan peer_id far start s → Keeping (pull_failed s e)
  unfolding pull_failed
  failed_gap s e p = elim (Bool-cases (is_payload_too_large_error e)) [
    | inl t ↦ elim (Bool-cases (leb s.batch_limit 1)) [
      | inl least ↦ rw (t, least) (IsGapless-error s _ p)
      | inr more ↦
          rw (t, more)
            (record {
              at_cursor = p.at_cursor;
              room = halved_pos s.batch_limit;
              caught_up = p.caught_up;
              counted = p.counted;
            })
    ]
    | inr f ↦ rw f (IsGapless-error s e p)
  ]

  -- The page past `cursor` is in the table, and the cursor is not moved yet.
  record IsStored (cursor : ℤ) (limit : ℕ) (rows : List Row) (s : PullState R) : Type 0 where
    at_cursor : get_last_cursor s.local peer_id ≡ cursor
    same_cursor : s.cursor ≡ cursor
    room : 0 < s.batch_limit
    is_page : page cursor limit far ≡ rows
    caught_up : IsCaughtUp far s.local.entries start cursor
    present : All (λ r. has_id r.entry_id s.local.entries ≡ true) rows
    counted : s.received_total ≡ length caught_up.done + length rows

  stored_error :
      (cursor : ℤ) (limit : ℕ) (rows : List Row) (s : PullState R) (e : Error)
      → IsStored cursor limit rows s
      → IsGapless peer_id far start (record { result = err e; local = s.local; remote = s.remote })
  stored_error cursor limit rows s e p = record { caught_up = rw p.at_cursor p.caught_up; end = tt }

  advance_gap :
      (cursor : ℤ) (limit lo hi : ℕ) (rows : List Row) (s : PullState R)
      → Rising lo far hi
      → IsStored cursor limit rows s
      → Keeping (pull_advance peer_id s (next_of rows))
  unfolding pull_advance
  advance_gap cursor limit lo hi [] s r p = stored_error cursor limit [] s _ p
  advance_gap cursor limit lo hi (x ∷ rows) s r p =
      let following = page_next cursor limit lo hi far (next_key) r (ap next_of p.is_page) in
      elim (Bool-cases (leb_ℤ next_key s.cursor)) [
        | inl stuck ↦ rw stuck (stored_error cursor limit (x ∷ rows) s _ p)
        | inr past ↦ rw past (record {
          at_cursor = get_last_cursor-set_self s.local peer_id next_key;
          room = p.room;
          caught_up = record {
            done = p.caught_up.done ++ x ∷ rows;
            split =
                p.caught_up.split
                ∙ ap (λ l. p.caught_up.done ++ l) following.1
                ∙ ap (λ l. p.caught_up.done ++ (l ++ after next_key far)) p.is_page
                ∙ sym (append_assoc p.caught_up.done (x ∷ rows) (after next_key far));
            present =
                unfold set_last_cursor in
                All-append _ p.caught_up.done (x ∷ rows) p.caught_up.present p.present;
          };
          counted = p.counted ∙ sym (length-append p.caught_up.done (x ∷ rows));
        })
      ]
    where
      next_key : ℤ
      next_key = pos (last_key x.ingest_seq rows)

module _ {T R : Type 0} ⦃time : TimeApi T⦄ ⦃sql : Sqlite⦄ (peer_id : Text) (far : LocalStore)
    (start : ℤ) (w : IsWellFormed time far) where
  received_gap :
      (s : PullState R) (es : List (Entry T)) (rows : List Row)
      → IsSpan peer_id far.entries start s
      → page s.cursor s.batch_limit far.entries ≡ rows
      → entries_of time rows ≡ es
      → All (IsReadable time) rows
      → Keeping peer_id far.entries start (pull_received peer_id s es (next_of rows))
  unfolding pull_received get_last_cursor
  received_gap s [] rows p is_page read h = record {
    caught_up = record {
      done = p.caught_up.done;
      split = rw p.at_cursor p.caught_up.split;
      present = p.caught_up.present;
    };
    end = (
      rw p.at_cursor (
          page_nil s.cursor s.batch_limit far.entries p.room
            (is_page ∙ nil_of_length rows (sym (length-entries_of time rows h) ∙ ap length read))),
      p.counted,
    );
  }
  received_gap s (e ∷ es) rows p is_page read h =
      let (g, _, present) = insert_entries_lem s.local (e ∷ es) in
      advance_gap peer_id far.entries start s.cursor s.batch_limit 0 far.entries_mark rows _
        w.rising
        (record {
          at_cursor = rw (g.peer_state) p.at_cursor;
          same_cursor = refl;
          room = p.room;
          is_page = is_page;
          caught_up = record {
            done = p.caught_up.done;
            split = p.caught_up.split;
            present = rw g.entries (present_append s.local.entries g.added _ p.caught_up.present);
          };
          present = present_entries time _ rows h (rw read present);
          counted = omega (arith, p.counted, length-entries_of time rows h, ap length read);
        })

  answer_gap :
      (s : PullState R) (a : Result (PullBatch T))
      → IsSpan peer_id far.entries start s
      → ((batch : PullBatch T)
          → a ≡ ok batch
          → pull_since_cursor far s.cursor s.batch_limit ≡ ok batch)
      → Keeping peer_id far.entries start (pull_answer peer_id s a)
  unfolding pull_answer
  answer_gap s (err e) p honest = failed_gap peer_id far.entries start s e p
  answer_gap s (ok batch) p honest =
      let rows = page s.cursor s.batch_limit far.entries in
      let same : ok batch
          ≡ ok (record { entries = entries_of time rows; next_cursor = next_of rows }) =
        sym (honest batch refl) ∙ pull_since_cursor_lem far s.cursor s.batch_limit w in
      rw (ap (λ (b : PullBatch T). b.next_cursor) (ok_injective same)) (
        received_gap s batch.entries rows p refl
          (ap (λ (b : PullBatch T). b.entries) (sym (ok_injective same)))
          (All-limit_rows (IsReadable time) (as_i64 s.batch_limit) _
            (All-keep_if (IsReadable time) _ far.entries w.readable)))

  pub step_gap :
      (pull : PullFn T R) (s : PullState R)
      → IsHonest time far pull
      → IsSpan peer_id far.entries start s
      → Keeping peer_id far.entries start (pull_step pull peer_id s)
  unfolding pull_step
  step_gap pull s honest p =
      answer_gap _ (pull s.remote s.cursor s.batch_limit).0
        (record {
          at_cursor = p.at_cursor;
          room = p.room;
          caught_up = p.caught_up;
          counted = p.counted;
        })
        (honest s.remote s.cursor s.batch_limit)

  -- A far side with a well-formed store answers from it, or fails, as it pleases. However the run
  -- ends, the rows past the old cursor are those that the table has by now, followed by those past
  -- the new cursor: no row is skipped, and none that was not stored is passed over. If the run ends
  -- well, no row is left, and `received` counts each row once.
  pub sync_pull-IsGapless :
      (fuel : ℕ) (db : LocalStore) (limit : ℕ) (pull : PullFn T R) (remote : R)
      (run : Run R PullStats)
      → start ≡ get_last_cursor db peer_id
      → 0 < limit
      → IsHonest time far pull
      → sync_pull_from_peer fuel db peer_id limit pull remote ≡ some run
      → IsGapless peer_id far.entries start run
  unfolding sync_pull_from_peer
  sync_pull-IsGapless fuel db limit pull remote run at room honest e =
      let nonzero : (limit == 0) ≡ false = ground arith in
      run_loop_partial (IsSpan peer_id far.entries start) (IsGapless peer_id far.entries start)
        (pull_step pull peer_id) (λ s. step_gap pull s honest) fuel
        (pull_start db peer_id limit remote) run
        (record {
          at_cursor = refl;
          room = room;
          caught_up = record { done = []; split = rw at; present = tt };
          counted = refl;
        })
        (rw nonzero at e)
