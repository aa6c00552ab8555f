-- ===== src/Sync/Push/NoGap.antt =====
-- src/sync.rs: the entries that a push run hands over, however the far side answers.
use rustory.Prelude.{
  ℕ, ℤ, pos, ◌+◌, ◌<◌, Text, Bool, true, false, ◌||◌, Option, none, some, List, [], ◌∷◌, ◌++◌, ◌≡◌,
  refl, ap, sym, ◌∙◌, arith, length, length-append, All, leb, leb_ℤ, ◌==◌, Bool-cases, inl, inr,
  as_i64,
}
use mathlib.Core.List.{append_assoc}
use mathlib.Core.Path.{subst}
use rustory.Errors.{Error, ok, err, Result-cases}
use rustory.Core.{Entry, TimeApi}
use rustory.Loop.{run_loop_partial}
use rustory.Storage.Schema.{Row, LocalStore}
use rustory.Storage.Entries.{has_id}
use rustory.Storage.Entries.Insert.{has_id-append}
use rustory.Storage.Entries.Ids.{batch_ids}
use rustory.Storage.Entries.PageIds.{
  has_id-page-after, batch_ids-entries_of, batch_ids-entries_of_readable,
}
use rustory.Storage.Entries.Invariant.{
  IsWellFormed, IsReadable, Rising, All-keep_if, All-limit_rows,
}
use rustory.Storage.Entries.Paging.{
  after, page, next_of, last_key, of_source, page_nil, page_next, Rising-of_source,
}
use rustory.Storage.Entries.Pull.{
  entries_of, length-entries_of, pull_since_cursor_lem, pull_since_cursor_for_device_lem,
}
use rustory.Storage.Peers.{set_last_pushed_seq}
use rustory.Storage.Peers.Cursors.{get_last_pushed_seq-set_self, get_last_pushed_seq-set_other}
use rustory.Sync.{Run, is_payload_too_large_error}
use rustory.Sync.Push.{
  PushState, PushFn, push_batch, push_advance, push_answer, push_entries, push_read, push_step,
  push_start, sync_push_to_peer,
}
use rustory.Sync.Pull.NoGap.{nil_of_length, halved_pos}
use rustory.Sync.Push.Delivered.{
  IsSink, or_from, or_right, or_nothing, delivered_more, IsFrame, IsPushed, IsPushSpan, Keeping,
  IsReadable-of_source,
}

module _ {T R : Type 0} ⦃time : TimeApi T⦄ (peer_id : Text) (db : LocalStore) (source : Option Text)
    (taken : R → Text → Bool) (before : Text → Bool) where
  pub push_batch_lem :
      (s : PushState R)
      → IsFrame time peer_id db s.local
      → push_batch s source
        ≡ ok (record {
          entries = entries_of time (page s.cursor s.batch_limit (of_source source db.entries));
          next_cursor = next_of (page s.cursor s.batch_limit (of_source source db.entries));
        })
  unfolding push_batch
  push_batch_lem s f = go source
    where
      go :
          (o : Option Text)
          → push_batch s o
            ≡ ok (record {
              entries = entries_of time (page s.cursor s.batch_limit (of_source o db.entries));
              next_cursor = next_of (page s.cursor s.batch_limit (of_source o db.entries));
            })
      go none = rw (← f.entries) (pull_since_cursor_lem s.local s.cursor s.batch_limit f.valid)
      go (some d) =
          rw (← f.entries)
            (pull_since_cursor_for_device_lem s.local s.cursor s.batch_limit d f.valid)

  IsFrame-cursor :
      (db' : LocalStore) (c : ℤ)
      → IsFrame time peer_id db db'
      → IsFrame time peer_id db (set_last_pushed_seq db' peer_id c)
  unfolding set_last_pushed_seq
  IsFrame-cursor db' c f = record {
    valid = record {
      rising = f.valid.rising;
      unique = f.valid.unique;
      readable = f.valid.readable;
    };
    entries = f.entries;
    peer_state = f.peer_state;
    peer_book = f.peer_book;
    other_cursors = λ j o. get_last_pushed_seq-set_other db' peer_id j c o ∙ f.other_cursors j o;
  }

  IsPushed-error :
      (s : PushState R) (e : Error)
      → IsPushSpan time peer_id db source taken before s
      → IsPushed time peer_id db source taken before
          (record { result = err e; local = s.local; remote = s.remote })
  IsPushed-error s e p = record { frame = p.frame; progress = rw p.at_cursor p.progress; end = tt }

  -- A page of rows has been offered to the far side.
  offered :
      (push : PushFn T R) (s : PushState R)
      → IsSink push taken
      → IsPushSpan time peer_id db source taken before s
      → let es = entries_of time (page s.cursor s.batch_limit (of_source source db.entries)) in
        IsPushSpan time peer_id db source taken before (record s { remote = (push s.remote es).1 })
  offered push s sink p =
      let all = of_source source db.entries in
      let rows = page s.cursor s.batch_limit all in
      record {
        frame = p.frame;
        at_cursor = p.at_cursor;
        room = p.room;
        progress = record {
          done = p.progress.done;
          split = p.progress.split;
          delivered =
              λ id h. sink.keeps s.remote (entries_of time rows) id (p.progress.delivered id h);
          only = λ id h.
              or_from (sink.only s.remote (entries_of time rows) id h) (p.progress.only id) (λ b.
                rw (p.progress.split) (
                  or_right _ _ (
                    has_id-append id p.progress.done (after s.cursor all)
                    ∙ or_right _ _ (
                        has_id-page-after id s.cursor s.batch_limit all
                          (batch_ids-entries_of time id rows b)))));
        };
        counted = p.counted;
      }

  -- A page of rows that the far side has just taken.
  advance_pushed :
      (lo hi : ℕ) (s : PushState R) (x : Row) (rows : List Row)
      → Rising lo (of_source source db.entries) hi
      → IsPushSpan time peer_id db source taken before s
      → page s.cursor s.batch_limit (of_source source db.entries) ≡ x ∷ rows
      → ((id : Text) → has_id id (x ∷ rows) ≡ true → taken s.remote id ≡ true)
      → Keeping time peer_id db source taken before (
          push_advance peer_id
            (record s { pushed_total = s.pushed_total + length (x ∷ rows) })
            (next_of (x ∷ rows)))
  unfolding push_advance
  advance_pushed lo hi s x rows r p is_page took =
      let all = of_source source db.entries in
      let following = page_next s.cursor s.batch_limit lo hi all next_key r (ap next_of is_page) in
      let past : leb_ℤ next_key s.cursor ≡ false = ground (arith, following.0) in
      rw past (record {
        frame = IsFrame-cursor s.local next_key p.frame;
        at_cursor = get_last_pushed_seq-set_self s.local peer_id next_key;
        room = p.room;
        progress = record {
          done = p.progress.done ++ x ∷ rows;
          split =
              p.progress.split
              ∙ ap (λ l. p.progress.done ++ l) following.1
              ∙ ap (λ l. p.progress.done ++ (l ++ after next_key all)) is_page
              ∙ sym (append_assoc p.progress.done (x ∷ rows) (after next_key all));
          delivered = λ id h.
              delivered_more (before id) (has_id id p.progress.done) (has_id id (x ∷ rows)) _
                (ap (λ b. before id || b) (sym (has_id-append id p.progress.done (x ∷ rows))) ∙ h)
                (p.progress.delivered id) (took id);
          only = p.progress.only;
        };
        counted = omega (arith, p.counted, length-append p.progress.done (x ∷ rows));
      })
    where
      next_key : ℤ
      next_key = pos (last_key x.ingest_seq rows)

  refused_keeps :
      (s : PushState R) (n : ℕ) (next : Option ℤ) (e : Error)
      → IsPushSpan time peer_id db source taken before s
      → Keeping time peer_id db source taken before (push_answer peer_id s n next (err e))
  unfolding push_answer
  refused_keeps s n next e p = elim (Bool-cases (is_payload_too_large_error e)) [
    | inl t ↦ elim (Bool-cases (leb s.batch_limit 1)) [
      | inl least ↦ rw (t, least) (IsPushed-error s _ p)
      | inr more ↦
          rw (t, more)
            (record {
              frame = p.frame;
              at_cursor = p.at_cursor;
              room = halved_pos s.batch_limit;
              progress = p.progress;
              counted = p.counted;
            })
    ]
    | inr f ↦ rw f (IsPushed-error s e p)
  ]

  entries_keep :
      (push : PushFn T R)
      → IsSink push taken
      → (lo hi : ℕ) (s : PushState R) (rows : List Row) (es : List (Entry T))
      → Rising lo (of_source source db.entries) hi
      → IsPushSpan time peer_id db source taken before s
      → page s.cursor s.batch_limit (of_source source db.entries) ≡ rows
      → All (IsReadable time) rows
      → entries_of time rows ≡ es
      → Keeping time peer_id db source taken before (push_entries push peer_id s es (next_of rows))
  unfolding push_entries entries_of push_answer
  entries_keep push sink lo hi s rows [] r p is_page h read = record {
    frame = p.frame;
    progress = record {
      done = p.progress.done;
      split = rw p.at_cursor p.progress.split;
      delivered = p.progress.delivered;
      only = p.progress.only;
    };
    end = (
      rw p.at_cursor (
          page_nil s.cursor s.batch_limit (of_source source db.entries) p.room
            (is_page ∙ nil_of_length rows (sym (length-entries_of time rows h) ∙ ap length read))),
      p.counted,
    );
  }
  entries_keep push sink lo hi s [] (e ∷ es) r p is_page h read = cc
  entries_keep push sink lo hi s (x ∷ rows) (e ∷ es) r p is_page h read =
      let offer =
        subst
          (λ es'.
            IsPushSpan time peer_id db source taken before
              (record s { remote = (push s.remote es').1 }))
          (ap (entries_of time) is_page ∙ read) (offered push s sink p) in
      elim (Result-cases (push s.remote (e ∷ es)).0) [
        | inl (u, good) ↦
            let n : length (e ∷ es) ≡ length (x ∷ rows) =
              ap length (sym read) ∙ length-entries_of time (x ∷ rows) h in
            rw (good, n)
              (advance_pushed lo hi (record s { remote = (push s.remote (e ∷ es)).1 }) x rows r
                offer is_page
                (λ id there. sink.accepts s.remote (e ∷ es) id good (
                  ap (λ l. batch_ids l id) (sym read)
                  ∙ batch_ids-entries_of_readable time id (x ∷ rows) h
                  ∙ there)))
        | inr (f, bad) ↦ rw bad (
            refused_keeps (record s { remote = (push s.remote (e ∷ es)).1 }) (length (e ∷ es))
              (next_of (x ∷ rows)) f offer)
      ]

  pub step-Keeps :
      (push : PushFn T R)
      → IsSink push taken
      → IsWellFormed time db
      → (s : PushState R) → IsPushSpan time peer_id db source taken before s
      → Keeping time peer_id db source taken before (push_step push peer_id source s)
  unfolding push_step push_read
  step-Keeps push sink w s p =
      let rows = page s.cursor s.batch_limit (of_source source db.entries) in
      rw (push_batch_lem s p.frame) (
        entries_keep push sink 0 db.entries_mark s rows (entries_of time rows)
          (Rising-of_source source 0 db.entries_mark db.entries w.rising) p refl
          (All-limit_rows (IsReadable time) (as_i64 s.batch_limit) _ (
            All-keep_if (IsReadable time) _ (of_source source db.entries)
              (IsReadable-of_source time source db w)))
          refl)

pub start_span :
    {T R : Type 0} (time : TimeApi T) (db : LocalStore) (peer_id : Text) (limit : ℕ)
    (source : Option Text) (taken : R → Text → Bool) (remote : R)
    → IsWellFormed time db
    → 0 < limit
    → IsPushSpan time peer_id db source taken (taken remote) (push_start db peer_id limit remote)
unfolding push_start has_id
start_span time db peer_id limit source taken remote w room = record {
  frame = record {
    valid = w;
    entries = refl;
    peer_state = refl;
    peer_book = refl;
    other_cursors = λ j h. refl;
  };
  at_cursor = refl;
  room = room;
  progress = record {
    done = [];
    split = refl;
    delivered = λ id h. or_nothing (taken remote id) h;
    only = λ id h. ground (arith, h);
  };
  counted = refl;
}

-- From a local store with rising keys, unique ids and readable times, and with a limit above zero, to
-- a far side that loses no id, that adds no id but those of a batch pushed to it, even where its
-- answer is an error, and that has all of a batch that it accepts: however the run ends, the rows of
-- the source past the old push cursor are some rows in order and behind them the rows past the new
-- cursor; the far side has all ids of the former, what it had before, and nothing else but ids of
-- rows of the source past the old cursor; the entries and all other cursors of the local store stay
-- as they were; and a run that ends well leaves no row to push and returns how many it has passed.
pub sync_push_gapless :
    {T R : Type 0} (time : TimeApi T) (fuel : ℕ) (db : LocalStore) (peer_id : Text) (limit : ℕ)
    (source : Option Text) (push : PushFn T R) (taken : R → Text → Bool) (remote : R)
    (run : Run R ℕ)
    → IsWellFormed time db
    → 0 < limit
    → IsSink push taken
    → sync_push_to_peer ⦃time = time⦄ fuel db peer_id limit source push remote ≡ some run
    → IsPushed time peer_id db source taken (taken remote) run
unfolding sync_push_to_peer
sync_push_gapless time fuel db peer_id limit source push taken remote run w room sink e =
    let nonzero : (limit == 0) ≡ false = ground arith in
    run_loop_partial (IsPushSpan time peer_id db source taken (taken remote))
      (IsPushed time peer_id db source taken (taken remote))
      (push_step ⦃time = time⦄ push peer_id source)
      (step-Keeps ⦃time = time⦄ peer_id db source taken (taken remote) push sink w) fuel
      (push_start db peer_id limit remote) run
      (start_span time db peer_id limit source taken remote w room) (rw nonzero at e)
