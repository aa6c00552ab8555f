-- ===== src/Sync/Pull/Safety.antt =====
-- src/sync.rs: the local store under a pull run, whatever the far side answers.
use mathlib.Core.Path.{subst}
use mathlib.Core.List.{append-nil, append_assoc}
use rustory.Prelude.{
  ℕ, ℤ, ◌+◌, Text, false, Option, none, some, List, [], ◌∷◌, ◌++◌, ◌≡◌, refl, ap, sym, ◌∙◌, arith,
  length, length-append, leb, leb_ℤ, ◌≤ℤ◌, pos_part, neg_part, ◌==◌, text_eq, Bool-cases, inl, inr,
}
use rustory.Errors.{Error, Result, ok, err}
use rustory.Core.{Entry, TimeApi}
use rustory.Loop.{Keeps, run_loop_partial}
use rustory.Storage.Schema.{Sqlite, Row, LocalStore}
use rustory.Storage.Entries.{PullBatch, insert_entries_with_stats}
use rustory.Storage.Entries.Invariant.{IsOrdered}
use rustory.Storage.Entries.Insert.{insert_entries_lem, insert_entries-IsOrdered}
use rustory.Storage.Peers.{get_last_cursor, set_last_cursor}
use rustory.Storage.Peers.Cursors.{get_last_cursor-set_self, get_last_cursor-set_other}
use rustory.Sync.{PullStats, Run, is_payload_too_large_error}
use rustory.Sync.Pull.{
  PullState, PullFn, pull_failed, pull_advance, pull_received, pull_answer, pull_step, pull_start,
  sync_pull_from_peer,
}

-- `db'` has the rows of `db`, in place, and perhaps more behind them, under rising keys and with no entry id
-- twice; the
-- cursor of `peer_id` is no smaller, and all other cursors are those of `db`.
pub record IsFollowing (peer_id : Text) (db db' : LocalStore) : Type 0 where
  pub ordered : IsOrdered db'
  pub more : List Row
  pub rows : db'.entries ≡ db.entries ++ more
  pub cursor : get_last_cursor db peer_id ≤ℤ get_last_cursor db' peer_id
  pub other_cursors :
      (j : Text) → text_eq peer_id j ≡ false → get_last_cursor db' j ≡ get_last_cursor db j
  pub push_cursors : db'.peer_push_state ≡ db.peer_push_state
  pub book : db'.peer_book ≡ db.peer_book

module _ (peer_id : Text) (db : LocalStore) where
  IsFollowing-refl : IsOrdered db → IsFollowing peer_id db db
  IsFollowing-refl w = record {
    ordered = w;
    more = [];
    rows = sym (append-nil db.entries);
    cursor = omega arith;
    other_cursors = λ j h. refl;
    push_cursors = refl;
    book = refl;
  }

  IsFollowing-cursor :
      (db' : LocalStore) (c : ℤ)
      → IsFollowing peer_id db db'
      → get_last_cursor db' peer_id ≤ℤ c
      → IsFollowing peer_id db (set_last_cursor db' peer_id c)
  unfolding set_last_cursor
  IsFollowing-cursor db' c f h = record {
    ordered = record { rising = f.ordered.rising; unique = f.ordered.unique };
    more = f.more;
    rows = f.rows;
    cursor = omega (arith, f.cursor, ap pos_part same, ap neg_part same);
    other_cursors = λ j o. get_last_cursor-set_other db' peer_id j c o ∙ f.other_cursors j o;
    push_cursors = f.push_cursors;
    book = f.book;
  }
    where
      same : get_last_cursor (set_last_cursor db' peer_id c) peer_id ≡ c
      same = get_last_cursor-set_self db' peer_id c

module _ {T : Type 0} ⦃time : TimeApi T⦄ ⦃sql : Sqlite⦄ (peer_id : Text) (db : LocalStore) where
  IsFollowing-insert :
      (db' : LocalStore) (es : List (Entry T))
      → IsFollowing peer_id db db'
      → IsFollowing peer_id db (insert_entries_with_stats db' es).0
  unfolding get_last_cursor
  IsFollowing-insert db' es f =
      let (g, _, _) = insert_entries_lem db' es in
      record {
        ordered = insert_entries-IsOrdered db' es f.ordered;
        more = f.more ++ g.added;
        rows = g.entries ∙ ap (λ l. l ++ g.added) f.rows ∙ append_assoc db.entries f.more g.added;
        cursor = rw (g.peer_state) (f.cursor);
        other_cursors = λ j h. rw (g.peer_state) (f.other_cursors j h);
        push_cursors = g.peer_push_state ∙ f.push_cursors;
        book = g.peer_book ∙ f.book;
      }

-- The numbers of a run that ended well.
abbrev pub IsStatsOf : LocalStore → LocalStore → Result PullStats → Type 0
IsStatsOf db db' (ok stats) =
    (stats.inserted + stats.ignored ≡ stats.received)
    × (length db'.entries ≡ length db.entries + stats.inserted)
IsStatsOf db db' (err e) = Unit

abbrev pub IsSafeRun : {R : Type 0} → Text → LocalStore → Run R PullStats → Type 0
IsSafeRun peer_id db run = IsFollowing peer_id db run.local × IsStatsOf db run.local run.result

-- The loop's variables agree with the store.
record IsInStep {R : Type 0} (peer_id : Text) (db : LocalStore) (s : PullState R) : Type 0 where
  following : IsFollowing peer_id db s.local
  at_cursor : get_last_cursor s.local peer_id ≡ s.cursor
  stored : length s.local.entries ≡ length db.entries + s.inserted_total
  counted : s.inserted_total + s.ignored_total ≡ s.received_total

module _ {R : Type 0} (peer_id : Text) (db : LocalStore) where
  failed-Keeps :
      (s : PullState R) (e : Error)
      → IsInStep peer_id db s
      → Keeps (IsInStep peer_id db) (IsSafeRun peer_id db) (pull_failed s e)
  unfolding pull_failed
  failed-Keeps s e p = elim (Bool-cases (is_payload_too_large_error e)) [
    | inl t ↦ elim (Bool-cases (leb s.batch_limit 1)) [
      | inl least ↦ rw (t, least) (p.following, tt)
      | inr more ↦
          rw (t, more)
            (record {
              following = p.following;
              at_cursor = p.at_cursor;
              stored = p.stored;
              counted = p.counted;
            })
    ]
    | inr f ↦ rw f (p.following, tt)
  ]

  advance-Keeps :
      (s : PullState R) (next : Option ℤ)
      → IsInStep peer_id db s
      → Keeps (IsInStep peer_id db) (IsSafeRun peer_id db) (pull_advance peer_id s next)
  unfolding pull_advance
  advance-Keeps s none p = (p.following, tt)
  advance-Keeps s (some c) p = elim (Bool-cases (leb_ℤ c s.cursor)) [
    | inl stuck ↦ rw stuck (p.following, tt)
    | inr past ↦ rw past (record {
      following =
          IsFollowing-cursor peer_id db s.local c p.following (rw p.at_cursor (ground arith));
      at_cursor = get_last_cursor-set_self s.local peer_id c;
      stored = unfold set_last_cursor in p.stored;
      counted = p.counted;
    })
  ]

module _ {T R : Type 0} ⦃time : TimeApi T⦄ ⦃sql : Sqlite⦄ (peer_id : Text) (db : LocalStore) where
  received-Keeps :
      (s : PullState R) (es : List (Entry T)) (next : Option ℤ)
      → IsInStep peer_id db s
      → Keeps (IsInStep peer_id db) (IsSafeRun peer_id db) (pull_received peer_id s es next)
  unfolding pull_received get_last_cursor
  received-Keeps s [] next p = (p.following, (p.counted, p.stored))
  received-Keeps s (e ∷ es) next p =
      let (g, sum, _) = insert_entries_lem s.local (e ∷ es) in
      advance-Keeps peer_id db _ next (record {
        following = IsFollowing-insert peer_id db s.local (e ∷ es) p.following;
        at_cursor = rw (g.peer_state) p.at_cursor;
        stored =
            ap length g.entries
            ∙ omega (arith, p.stored, g.counted, length-append s.local.entries g.added);
        counted = omega (arith, p.counted, sum);
      })

  answer-Keeps :
      (s : PullState R) (a : Result (PullBatch T))
      → IsInStep peer_id db s
      → Keeps (IsInStep peer_id db) (IsSafeRun peer_id db) (pull_answer peer_id s a)
  unfolding pull_answer
  answer-Keeps s (ok batch) p = received-Keeps s batch.entries batch.next_cursor p
  answer-Keeps s (err e) p = failed-Keeps peer_id db s e p

  step-Keeps :
      (pull : PullFn T R) (s : PullState R)
      → IsInStep peer_id db s
      → Keeps (IsInStep peer_id db) (IsSafeRun peer_id db) (pull_step pull peer_id s)
  unfolding pull_step
  step-Keeps pull s p = answer-Keeps _ (pull s.remote s.cursor s.batch_limit).0 (record {
    following = p.following;
    at_cursor = p.at_cursor;
    stored = p.stored;
    counted = p.counted;
  })

  -- For a store with rising keys and unique ids, however the far side answers, and whether the run ends well or in an error: the rows of the store
  -- stay, new ones come behind them, keys still rise and no entry id stands twice, the cursor of this peer does not
  -- fall, and no other cursor and nothing in the peer book changes. The numbers that a run
  -- returns add up, and `inserted` is the growth of the table.
  pub sync_pull_safe :
      (fuel : ℕ) (limit : ℕ) (pull : PullFn T R) (remote : R) (run : Run R PullStats)
      → IsOrdered db
      → sync_pull_from_peer fuel db peer_id limit pull remote ≡ some run
      → IsSafeRun peer_id db run
  unfolding sync_pull_from_peer
  sync_pull_safe fuel limit pull remote run w e = elim (Bool-cases (limit == 0)) [
    | inl z ↦
        let found : some idle ≡ some run = rw z at e in
        let same : idle ≡ run = cc in
        subst (IsSafeRun peer_id db) same
          (IsFollowing-refl peer_id db w, (omega arith, omega arith))
    | inr nz ↦
        run_loop_partial (IsInStep peer_id db) (IsSafeRun peer_id db) (pull_step pull peer_id)
          (step-Keeps pull) fuel (pull_start db peer_id limit remote) run
          (record {
            following = IsFollowing-refl peer_id db w;
            at_cursor = refl;
            stored = omega arith;
            counted = omega arith;
          })
          (rw nz at e)
  ]
    where
      idle : Run R PullStats
      idle = record {
        result = ok (record { received = 0; inserted = 0; ignored = 0 });
        local = db;
        remote = remote;
      }
