-- ===== src/Tests/Transport.antt =====
-- The theorems on the HTTP server for entries, applied.
use rustory.Storage.Entries.Invariant.{IsWellFormed-IsOrdered}
use rustory.Prelude.{
  ℕ, ℤ, pos, List, false, codes, Text, ◌++◌, length, drop, ltb, Option, Bool-cases, inl, inr, sym,
  ap, some, none, [], ◌∷◌, ◌≡◌, refl, arith, text_eq, is_empty, if◌then◌else◌, sort_by, insert_by,
}
use rustory.Prelude.Words.{
  parse_i64, parse_usize, parse_number, parse_digits, split_once, split_on, trim, trim_end_matches,
}
use rustory.Errors.{Result, ok, err, anyhow}
use rustory.HttpRetry.{Answer, reply, failed, status}
use rustory.Storage.Peers.{get_last_cursor, select_peer}
use rustory.Sync.{Run, PullStats, new_progress}
use rustory.Sync.Pull.NoGap.{IsGapless}
use rustory.Sync.Pull.Complete.{IsOk}
use rustory.Transport.Client.{Web, sync_pull_http_peer}
use rustory.Transport.Remote.{IsServed, IsReplyTo, get_request}
use rustory.Transport.Pulled.{
  IsReached, IsReadPages, sync_pull_http_peer_complete, sync_pull_http_peer-IsGapless,
}
use rustory.Sync.Peers.Verdict.{IsVerdict}
use rustory.Sync.Peers.{
  PeerOutcome, each_peer, SyncState, with_context, observed, SyncRun, sync_start, after_pull,
  sync_result,
}
use rustory.Transport.Peers.{sync, sync_peer, sync-IsVerdict}
use rustory.Tests.Wire.{wire}
use rustory.Tests.Pages.{far-IsReadPage}
use rustory.Storage.Entries.{
  has_id, entry_row, insert_or_ignore, insert_loop, insert_entries_with_stats, pull_since_cursor,
}
use rustory.Transport.{
  Request, EntriesJson, push_response, entries_response, array, route_http_request, serve_http,
  parse_cursor_limit, Response, respond_text, error_response, answered, normalize_peer_base_url,
}
use rustory.Storage.Entries.Extended.{IsExtended}
use rustory.Transport.Routes.{serve_http-IsExtended}
use rustory.Tests.{
  seconds, counting, entry, three, empty, far, empty-IsWellFormed, far-IsWellFormed,
}

-- Every body that is not empty is the same list of entries.
instance abbrev literal : EntriesJson ℤ
literal = record { from_slice = λ body. if is_empty body then none else some (array three) }

abbrev posting : Request
posting = record { method = codes "POST"; url = codes "/api/v1/entries"; body = some (1 ∷ []) }

abbrev getting : Request
getting = record {
  method = codes "GET";
  url = codes "/api/v1/entries?cursor=2&limit=5";
  body = some [];
}

serve_http-IsExtended_example :
    IsExtended empty (serve_http {T = ℤ} empty (posting ∷ getting ∷ posting ∷ [])).1
serve_http-IsExtended_example =
    serve_http-IsExtended ℤ empty (posting ∷ getting ∷ posting ∷ [])
      (IsWellFormed-IsOrdered seconds empty empty-IsWellFormed)

served :
    (serve_http {T = ℤ} empty (posting ∷ getting ∷ posting ∷ [])).0
    ≡ push_response 3 0
      ∷ entries_response (record { entries = entry "c" "d1" 30 ∷ []; next_cursor = some (pos 3) })
      ∷ push_response 0 3
      ∷ []
unfolding serve_http route_http_request parse_cursor_limit split_once split_on parse_i64 parse_usize
    parse_number parse_digits text_eq insert_entries_with_stats insert_loop insert_or_ignore has_id
    pull_since_cursor sort_by insert_by
served = refl

-- The server's response, as the client's agent sees it.
abbrev as_answer : Result (Response ℤ) → Answer (Option Text)
as_answer (ok (respond_text code body)) =
    if ltb code 400 then reply (some body) else failed (status code)
as_answer (ok (entries_response batch)) = reply (some (wire.batch_text batch))
as_answer (ok (push_response inserted ignored)) = reply none
as_answer (ok (error_response e)) = failed (status 500)
as_answer (err e) = failed (status 500)

-- A network in which every URL of eight letters and a path leads to the server with the store `far`.
abbrev web : Web Unit
web = record {
  get = λ url remote connect read.
      (as_answer (route_http_request {T = ℤ} far (get_request (drop 8 url))).0, remote);
  post = λ url body remote connect read. (reply none, remote);
  string_limit = 10_485_760;
}

abbrev base : Text
base = codes "http://f"

reached : IsReached ℤ web base far
reached path remote connect read batch h fits = rw h refl

far-IsReadPages : (limit : ℕ) → IsReadPages ℤ web far limit
far-IsReadPages limit cursor size batch below found = far-IsReadPage cursor size batch found

abbrev text_of : Answer (Option Text) → Option Text
text_of (reply v) = v
text_of (failed e) = none

as_answer-IsReplyTo :
    (r : Result (Response ℤ)) (v : Option Text) → as_answer r ≡ reply v → IsReplyTo (answered r) v
unfolding answered
as_answer-IsReplyTo (ok (respond_text code body)) v e = elim (Bool-cases (ltb code 400)) [
  | inl low ↦ (ground arith, inr (ap text_of (sym (rw low at e))))
  | inr high ↦ absurd (cc (rw high at e))
]
as_answer-IsReplyTo (ok (entries_response batch)) v e = inr (cc)
as_answer-IsReplyTo (ok (push_response inserted ignored)) v e = tt
as_answer-IsReplyTo (ok (error_response error)) v e = absurd (cc)
as_answer-IsReplyTo (err error) v e = absurd (cc)

far-IsServed : IsServed ℤ web base far
far-IsServed path remote connect read v e = as_answer-IsReplyTo _ v e

sync_pull_http_peer_complete_example :
    (run : Run Unit PullStats) × (sync_pull_http_peer ℤ web 6 empty (codes " http://f/ ") 2 tt
      ≡ some run)
    × IsGapless base far.entries (get_last_cursor empty base) run
    × IsOk run.result
unfolding get_last_cursor select_peer normalize_peer_base_url trim_end_matches trim
    insert_entries_with_stats insert_loop insert_or_ignore has_id text_eq entry_row
sync_pull_http_peer_complete_example =
    sync_pull_http_peer_complete web far far-IsWellFormed (omega arith) 6 empty
      (codes " http://f/ ") base 2 tt refl (omega arith) (omega arith) (omega arith) reached
      (far-IsReadPages 2) (omega arith)

pulled :
    (run : Run Unit PullStats) × (sync_pull_http_peer ℤ web 6 empty (codes " http://f/ ") 2 tt
      ≡ some run)
unfolding get_last_cursor select_peer normalize_peer_base_url trim_end_matches trim
    insert_entries_with_stats insert_loop insert_or_ignore has_id text_eq entry_row
pulled =
    let (run, returns, good, fine) =
      sync_pull_http_peer_complete web far far-IsWellFormed (omega arith) 6 empty
        (codes " http://f/ ") base 2 tt refl (omega arith) (omega arith) (omega arith) reached
        (far-IsReadPages 2) (omega arith) in
    (run, returns)

sync_pull_http_peer-IsGapless_example :
    IsGapless base far.entries (get_last_cursor empty base) pulled.0
unfolding get_last_cursor select_peer normalize_peer_base_url trim_end_matches trim
    insert_entries_with_stats insert_loop insert_or_ignore has_id text_eq entry_row
sync_pull_http_peer-IsGapless_example =
    sync_pull_http_peer-IsGapless web far far-IsWellFormed (omega arith) 6 empty
      (codes " http://f/ ") base 2 tt pulled.0 refl (omega arith) (omega arith) (omega arith)
      far-IsServed pulled.1

-- A run over two peers, the first of which has no URL.
abbrev two_peers : List Text
two_peers = codes " / " ∷ codes "http://f" ∷ []

no_url :
    sync_pull_http_peer ℤ web 1010 empty (codes " / ") 1000 tt
    ≡ some (record { result = err (anyhow "peer url is empty"); local = empty; remote = tt })
unfolding sync_pull_http_peer normalize_peer_base_url trim trim_end_matches
no_url = refl

abbrev outcome : Text → Result PullStats → PeerOutcome
outcome peer r = record { pull = with_context (codes "pull peer: " ++ peer) r; push = none }

abbrev after_first : SyncState Unit
after_first =
    let first = outcome (codes " / ") (err (anyhow "peer url is empty")) in
    observed first (after_pull first.pull (sync_start false empty tt))

-- What the second pull leaves.
abbrev after_second : Run Unit PullStats → SyncState Unit
after_second run =
    let second = outcome (codes "http://f") run.result in
    observed second
      (after_pull second.pull (record after_first { local = run.local; remote = run.remote }))

first_peer :
    sync_peer ℤ web 1010 false none (sync_start false empty tt) (codes " / ") ≡ some after_first
unfolding sync_start sync_peer after_pull
first_peer = rw (no_url, sync_peer) refl

second_peer :
    (run : Run Unit PullStats)
    → sync_pull_http_peer ℤ web 1010 empty (codes "http://f") 1000 tt ≡ some run
    → sync_peer ℤ web 1010 false none after_first (codes "http://f") ≡ some (after_second run)
unfolding sync_start after_pull sync_peer new_progress
second_peer run e = rw (e, sync_peer) refl

both_peers :
    (run : Run Unit PullStats)
    → sync_pull_http_peer ℤ web 1010 empty (codes "http://f") 1000 tt ≡ some run
    → sync ℤ web 1010 two_peers empty false none tt
      ≡ some (sync_result (codes "http sync failed") (after_second run))
unfolding sync each_peer
both_peers run e = rw (sync, each_peer, first_peer, second_peer run e) refl

both_tried : (run : SyncRun Unit) × (sync ℤ web 1010 two_peers empty false none tt ≡ some run)
unfolding normalize_peer_base_url trim trim_end_matches get_last_cursor select_peer
    insert_entries_with_stats insert_loop insert_or_ignore has_id text_eq entry_row
both_tried =
    let (run, returns, good, fine) =
      sync_pull_http_peer_complete web far far-IsWellFormed (omega arith) 1010 empty
        (codes "http://f") base 1000 tt refl (omega arith) (omega arith) (omega arith) reached
        (far-IsReadPages 1000) (omega arith) in
    (_, both_peers run returns)

sync-IsVerdict_example : IsVerdict both_tried.0 × (length both_tried.0.outcomes ≡ 2)
sync-IsVerdict_example =
    sync-IsVerdict ℤ web 1010 (codes " / ") (codes "http://f" ∷ []) empty false none tt both_tried.0
      refl both_tried.1
