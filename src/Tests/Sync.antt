-- ===== src/Tests/Sync.antt =====
-- The theorems on the sync runs, applied.
use rustory.Storage.Entries.Invariant.{IsWellFormed-IsOrdered}
use rustory.Prelude.{
  ℕ, ℤ, Text, ◌||◌, pos, Bool, true, false, none, some, List, [], ◌∷◌, ◌++◌, ◌≡◌, refl, inl, inr,
  arith, codes, length, ltb, text_eq, if◌then◌else◌, Bool-cases, sort_by, insert_by,
}
use rustory.Errors.{Error, ok, err, http_status}
use rustory.Core.{Entry}
use rustory.Loop.{run_loop}
use rustory.Storage.Entries.{
  has_id, entry_row, insert_or_ignore, insert_loop, insert_entries_with_stats, pull_since_cursor,
}
use rustory.Storage.Entries.Ids.{ids_of, batch_ids}
use rustory.Storage.Entries.Paging.{after, of_source}
use rustory.Storage.Peers.{
  get_last_cursor, set_last_cursor, get_last_pushed_seq, set_last_pushed_seq, select_peer,
  upsert_peer,
}
use rustory.Storage.Prune.{count_pending_push_entries, count_entries_after_seq}
use rustory.Sync.{Run, PullStats, is_payload_too_large_error, halved}
use rustory.Sync.Pull.{PullFn, pull_step, sync_pull_from_peer}
use rustory.Sync.Pull.Safety.{IsSafeRun, sync_pull_safe}
use rustory.Sync.Pull.NoGap.{IsHonest, IsGapless, sync_pull-IsGapless}
use rustory.Sync.Pull.Union.{sync_pull_union}
use rustory.Sync.Pull.Complete.{IsObliging, IsOk, sync_pull_complete}
use rustory.Sync.Push.{PushFn, push_step, sync_push_to_peer}
use rustory.Sync.Push.Delivered.{IsSink, IsPushed}
use rustory.Sync.Push.NoGap.{sync_push_gapless}
use rustory.Sync.Push.Complete.{IsObligingSink, sync_push_complete}
use rustory.Tests.{seconds, counting, empty, far, peer, empty-IsWellFormed, far-IsWellFormed}

abbrev too_large : Error
too_large = http_status 413 ∷ []

too_large_is_payload : is_payload_too_large_error too_large ≡ true
unfolding is_payload_too_large_error
too_large_is_payload = refl

-- A far side that answers from `far`, one entry at a time.
one_by_one : PullFn ℤ Unit
one_by_one u cursor limit =
    (if ltb 1 limit then err too_large else pull_since_cursor far cursor limit, u)

one_by_one-IsObliging : IsObliging seconds far one_by_one
unfolding one_by_one
one_by_one-IsObliging u cursor limit = elim (Bool-cases (ltb 1 limit)) [
  | inl more ↦ rw more (inr (too_large, refl, too_large_is_payload, ground arith))
  | inr one ↦ rw one (inl refl)
]

sync_pull_complete_example :
    (run : Run Unit PullStats) × (sync_pull_from_peer 8 empty peer 4 one_by_one tt ≡ some run)
    × IsGapless peer far.entries (get_last_cursor empty peer) run
    × IsOk run.result
unfolding get_last_cursor select_peer insert_entries_with_stats insert_loop insert_or_ignore has_id
    text_eq entry_row
sync_pull_complete_example =
    sync_pull_complete peer far far-IsWellFormed 8 empty 4 one_by_one tt (omega arith)
      one_by_one-IsObliging (omega arith)

-- A far side that answers once, with at most two entries, and is down afterwards.
flaky : PullFn ℤ Bool
flaky true cursor limit = (pull_since_cursor far cursor limit, false)
flaky false cursor limit = (err (http_status 503 ∷ []), false)

flaky-IsHonest : IsHonest seconds far flaky
unfolding flaky
flaky-IsHonest true cursor limit batch h = h
flaky-IsHonest false cursor limit batch h = cc

-- The run stores two entries and ends in an error.
flaky_run : (run : Run Bool PullStats) × (sync_pull_from_peer 3 empty peer 2 flaky true ≡ some run)
unfolding sync_pull_from_peer run_loop pull_step flaky pull_since_cursor insert_entries_with_stats
    insert_loop insert_or_ignore has_id text_eq get_last_cursor select_peer set_last_cursor
    upsert_peer sort_by insert_by is_payload_too_large_error
flaky_run = (_, refl)

sync_pull-IsGapless_example : IsGapless peer far.entries (pos 0) flaky_run.0
unfolding get_last_cursor select_peer
sync_pull-IsGapless_example =
    sync_pull-IsGapless peer far (pos 0) far-IsWellFormed 3 empty 2 flaky true flaky_run.0 refl
      (omega arith) flaky-IsHonest flaky_run.1

sync_pull_safe_example : IsSafeRun peer empty flaky_run.0
sync_pull_safe_example =
    sync_pull_safe peer empty 3 2 flaky true flaky_run.0
      (IsWellFormed-IsOrdered seconds empty empty-IsWellFormed) flaky_run.1

-- A far side that keeps what it is given, and that then fails to answer for more than one entry.
keeping : PushFn ℤ (List (Entry ℤ))
keeping kept es = (if ltb 1 (length es) then err too_large else ok tt, kept ++ es)

batch_ids-append :
    (id : Text) (kept es : List (Entry ℤ))
    → batch_ids (kept ++ es) id ≡ (batch_ids kept id || batch_ids es id)
batch_ids-append id [] es = refl
batch_ids-append id (e ∷ kept) es = ground (arith, batch_ids-append id kept es)

keeping-IsSink : IsSink keeping batch_ids
unfolding keeping
keeping-IsSink = record {
  accepts = λ kept es id good h. ground (arith, batch_ids-append id kept es, h);
  keeps = λ kept es id h. ground (arith, batch_ids-append id kept es, h);
  only = λ kept es id h. ground (arith, batch_ids-append id kept es, h);
}

keeping-IsObligingSink : IsObligingSink keeping
unfolding keeping
keeping-IsObligingSink kept es = elim (Bool-cases (ltb 1 (length es))) [
  | inl more ↦ rw more (inr (too_large, refl, too_large_is_payload, ground arith))
  | inr one ↦ rw one (inl refl)
]

abbrev no_entries : List (Entry ℤ)
no_entries = []

-- Of the rows past the push cursor 1, the third alone is of the device `d1`.
sync_push_complete_example :
    (run : Run (List (Entry ℤ)) ℕ) × (sync_push_to_peer 8 far peer 4
        (some (codes "d1"))
        keeping
        no_entries
      ≡ some run)
    × (run.result ≡ ok (count_pending_push_entries far peer (some (codes "d1"))))
    × (count_pending_push_entries run.local peer (some (codes "d1")) ≡ 0)
    × ((id : Text)
        → batch_ids run.remote id ≡ (
            batch_ids no_entries id
            || has_id id
                (after (get_last_pushed_seq far peer) (of_source (some (codes "d1")) far.entries))))
unfolding count_pending_push_entries count_entries_after_seq get_last_pushed_seq select_peer
    insert_entries_with_stats insert_loop insert_or_ignore has_id text_eq entry_row
sync_push_complete_example =
    sync_push_complete seconds 8 far peer 4 (some (codes "d1")) keeping batch_ids no_entries
      far-IsWellFormed (omega arith) keeping-IsSink keeping-IsObligingSink (omega arith)

push_run :
    (run : Run (List (Entry ℤ)) ℕ) × (sync_push_to_peer 8 far peer 4 none keeping no_entries
      ≡ some run)
unfolding sync_push_to_peer run_loop push_step keeping pull_since_cursor insert_entries_with_stats
    insert_loop insert_or_ignore has_id text_eq get_last_pushed_seq select_peer set_last_pushed_seq
    upsert_peer sort_by insert_by is_payload_too_large_error halved
push_run = (_, refl)

sync_push_gapless_example :
    IsPushed seconds peer far none batch_ids (batch_ids no_entries) push_run.0
sync_push_gapless_example =
    sync_push_gapless seconds 8 far peer 4 none keeping batch_ids no_entries push_run.0
      far-IsWellFormed (omega arith) keeping-IsSink push_run.1

sync_pull_union_example :
    (run : Run Unit PullStats) × (sync_pull_from_peer 8 empty peer 4 one_by_one tt ≡ some run)
    × IsOk run.result
    × ((id : Text) → ids_of run.local id ≡ (ids_of empty id || ids_of far id))
unfolding get_last_cursor select_peer insert_entries_with_stats insert_loop insert_or_ignore has_id
    text_eq entry_row
sync_pull_union_example =
    sync_pull_union peer far far-IsWellFormed 8 empty 4 one_by_one tt refl (omega arith)
      one_by_one-IsObliging (omega arith)
