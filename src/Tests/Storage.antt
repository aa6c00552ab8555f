-- ===== src/Tests/Storage.antt =====
-- The theorems on the store, applied.
use mathlib.Core.List.{Mem, mem-cons_self}
use rustory.Prelude.{
  pos, ◌+◌, true, false, none, ◌≡◌, refl, ◌↔◌, codes, All, ◌||◌, [], ◌∷◌, text_eq, insert_by,
  sort_by,
}
use rustory.Errors.{ok}
use rustory.Storage.Schema.{Row}
use rustory.Storage.Entries.{
  has_id, entry_row, insert_or_ignore, insert_loop, insert_entries_with_stats, pull_since_cursor,
  pull_since_cursor_for_device,
}
use rustory.Storage.Entries.Invariant.{IsWellFormed}
use rustory.Storage.Entries.Insert.{IsGrown, insert_entries-IsWellFormed, insert_entries_lem}
use rustory.Storage.Entries.Ids.{ids_of, batch_ids, insert_entries_union}
use rustory.Storage.Entries.Repeat.{insert_entries_twice}
use rustory.Storage.Entries.Paging.{page, next_of, of_device}
use rustory.Storage.Entries.Pull.{
  entries_of, pull_since_cursor_lem, pull_since_cursor_for_device_lem,
}
use rustory.Storage.Peers.{get_last_pushed_seq_opt, select_peer}
use rustory.Storage.Prune.{prune_entries_older_than, count_pending_push_entries}
use rustory.Storage.Prune.Safety.{IsPrunable}
use rustory.Storage.Prune.Outcome.{
  prune_exact, prune_stats, prune_keeps_newest, prune_keeps_pending,
}
use rustory.Tests.{
  seconds, counting, entry, three, empty, far, peer, far-IsWellFormed, three-IsAccepted,
}

insert_entries-IsWellFormed_example : IsWellFormed seconds (insert_entries_with_stats far three).0
insert_entries-IsWellFormed_example =
    insert_entries-IsWellFormed far three far-IsWellFormed three-IsAccepted

insert_entries_lem_example :
    IsGrown seconds three empty far (insert_entries_with_stats empty three).1.inserted
    × ((insert_entries_with_stats empty three).1.inserted
          + (insert_entries_with_stats empty three).1.ignored
        ≡ 3)
    × All (λ e. has_id e.entry_id far.entries ≡ true) three
insert_entries_lem_example = insert_entries_lem empty three

insert_entries_twice_example :
    ((insert_entries_with_stats far three).0.entries ≡ far.entries)
    × ((insert_entries_with_stats far three).1.inserted ≡ 0)
    × ((insert_entries_with_stats far three).1.ignored ≡ 3)
insert_entries_twice_example = insert_entries_twice empty three

pull_since_cursor_lem_example :
    pull_since_cursor far (pos 1) 2
    ≡ ok (record {
      entries = entries_of seconds (page (pos 1) 2 far.entries);
      next_cursor = next_of (page (pos 1) 2 far.entries);
    })
pull_since_cursor_lem_example = pull_since_cursor_lem far (pos 1) 2 far-IsWellFormed

pull_since_cursor_for_device_lem_example :
    pull_since_cursor_for_device far (pos 0) 1 (codes "d1")
    ≡ ok (record {
      entries = entries_of seconds (page (pos 0) 1 (of_device (codes "d1") far.entries));
      next_cursor = next_of (page (pos 0) 1 (of_device (codes "d1") far.entries));
    })
pull_since_cursor_for_device_lem_example =
    pull_since_cursor_for_device_lem far (pos 0) 1 (codes "d1") far-IsWellFormed

abbrev second : Row
second = entry_row 2 (entry "b" "d2" 20)

prune_stats_example : (prune_entries_older_than far (pos 25) 1 true).0 ≡ far
prune_stats_example = (prune_stats far (pos 25) 1).0

prune_exact_example :
    Mem second (prune_entries_older_than far (pos 25) 1 false).0.entries
    ↔ (Mem second far.entries × (¬ IsPrunable far (pos 25) 1 second))
prune_exact_example = prune_exact far (pos 25) 1 second

prune_keeps_newest_example :
    Mem (entry_row 3 (entry "c" "d1" 30)) (prune_entries_older_than far (pos 99) 1 false).0.entries
unfolding insert_entries_with_stats insert_loop insert_or_ignore entry_row has_id text_eq insert_by
    sort_by
prune_keeps_newest_example =
    prune_keeps_newest far (pos 99) 1 (entry_row 3 (entry "c" "d1" 30)) mem-cons_self

prune_keeps_pending_example :
    count_pending_push_entries (prune_entries_older_than far (pos 99) 0 false).0 peer none
    ≡ count_pending_push_entries far peer none
unfolding get_last_pushed_seq_opt select_peer insert_entries_with_stats insert_loop insert_or_ignore
    has_id text_eq
prune_keeps_pending_example = prune_keeps_pending far (pos 99) 0 peer (pos 1) none refl

insert_entries_union_example :
    (ids_of (insert_entries_with_stats empty three).0 (codes "b")
      ≡ (ids_of empty (codes "b") || batch_ids three (codes "b")))
    × (ids_of
          (insert_entries_with_stats
            (insert_entries_with_stats empty three).0
            (entry "d" "d3" 40 ∷ [])).0
          (codes "b")
        ≡ ids_of
            (insert_entries_with_stats
              (insert_entries_with_stats empty (entry "d" "d3" 40 ∷ [])).0
              three).0
            (codes "b"))
insert_entries_union_example = insert_entries_union empty three (entry "d" "d3" 40 ∷ []) (codes "b")
