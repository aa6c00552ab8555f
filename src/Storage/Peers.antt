-- ===== src/Storage/Peers.antt =====
-- src/storage.rs: the tables `peer_state`, `peer_push_state` and `peer_book`.
pub mod Cursors
use rustory.Prelude.{
  ℕ, ℤ, pos, Text, Bool, true, false, Option, none, some, List, [], ◌∷◌, map, keep_if, any_of,
  sort_by, ltb_ℤ, leb_ℤ, as_i64, text_eq, opt_text_eq, if◌then◌else◌, ◌&&◌,
}
use rustory.Errors.{Result, ok, err, anyhow, ◌>>=◌}
use rustory.Storage.Schema.{Sqlite, AddrsJson, PeerBookRow, LocalStore, limit_rows}

-- SELECT value … WHERE peer_id = ?, on a table whose key is `peer_id`.
unfoldable pub select_peer : Text → List (Text × ℤ) → Option ℤ
select_peer peer_id [] = none
select_peer peer_id ((id, v) ∷ rows) =
    if text_eq id peer_id then some v else select_peer peer_id rows

-- INSERT … ON CONFLICT(peer_id) DO UPDATE SET value = excluded.value
unfoldable pub upsert_peer : Text → ℤ → List (Text × ℤ) → List (Text × ℤ)
upsert_peer peer_id v [] = (peer_id, v) ∷ []
upsert_peer peer_id v ((id, w) ∷ rows) =
    if text_eq id peer_id then (id, v) ∷ rows else (id, w) ∷ upsert_peer peer_id v rows

abbrev pub unwrap_or {ℓ} : {A : Type ℓ} → A → Option A → A
unwrap_or d none = d
unwrap_or d (some v) = v

unfoldable pub get_last_cursor_opt : LocalStore → Text → Option ℤ
get_last_cursor_opt db peer_id = select_peer peer_id db.peer_state

unfoldable pub get_last_cursor : LocalStore → Text → ℤ
unfolding get_last_cursor_opt
get_last_cursor db peer_id = unwrap_or (pos 0) (get_last_cursor_opt db peer_id)

unfoldable pub set_last_cursor : LocalStore → Text → ℤ → LocalStore
set_last_cursor db peer_id cursor = record db {
  peer_state = upsert_peer peer_id cursor db.peer_state;
}

unfoldable pub get_last_pushed_seq_opt : LocalStore → Text → Option ℤ
get_last_pushed_seq_opt db peer_id = select_peer peer_id db.peer_push_state

unfoldable pub get_last_pushed_seq : LocalStore → Text → ℤ
unfolding get_last_pushed_seq_opt
get_last_pushed_seq db peer_id = unwrap_or (pos 0) (get_last_pushed_seq_opt db peer_id)

unfoldable pub set_last_pushed_seq : LocalStore → Text → ℤ → LocalStore
set_last_pushed_seq db peer_id seq = record db {
  peer_push_state = upsert_peer peer_id seq db.peer_push_state;
}

pub record PeerSyncStatus : Type 0 where
  pub peer_id : Text
  pub last_cursor : ℤ
  pub last_pushed_seq : ℤ

-- UNION keeps each id once.
unfoldable pub distinct : List Text → List Text
distinct [] = []
distinct (id ∷ ids) = let rest = distinct ids in if any_of (text_eq id) ids then rest else id ∷ rest

append_ids : List Text → List Text → List Text
append_ids [] ys = ys
append_ids (x ∷ xs) ys = x ∷ append_ids xs ys

unfoldable pub list_peer_sync_status : ⦃sql : Sqlite⦄ → LocalStore → List PeerSyncStatus
unfolding distinct append_ids get_last_cursor get_last_pushed_seq sort_by
list_peer_sync_status ⦃sql⦄ db =
    map
      (λ id. record {
        peer_id = id;
        last_cursor = get_last_cursor db id;
        last_pushed_seq = get_last_pushed_seq db id;
      })
      (sort_by sql.text_le (
        distinct (
          append_ids (map (λ (id, v). id) db.peer_state) (
            append_ids (map (λ (id, v). id) db.peer_push_state)
              (map (λ r. r.peer_id) db.peer_book)))))

pub record PeerBookPeer : Type 0 where
  pub peer_id : Text
  pub addrs : List Text
  pub user_id : Option Text
  pub device_id : Option Text
  pub last_seen_unix : ℤ

abbrev book_row : ⦃json : AddrsJson⦄ → PeerBookPeer → PeerBookRow
book_row ⦃json⦄ peer = record {
  peer_id = peer.peer_id;
  addrs_json = json.to_string peer.addrs;
  user_id = peer.user_id;
  device_id = peer.device_id;
  last_seen = peer.last_seen_unix;
}

unfoldable pub upsert_book : PeerBookRow → List PeerBookRow → List PeerBookRow
upsert_book row [] = row ∷ []
upsert_book row (r ∷ rows) =
    if text_eq r.peer_id row.peer_id then row ∷ rows else r ∷ upsert_book row rows

unfoldable pub upsert_peer_book : ⦃json : AddrsJson⦄ → LocalStore → PeerBookPeer → LocalStore
unfolding upsert_book
upsert_peer_book db peer = record db { peer_book = upsert_book (book_row peer) db.peer_book }

unfoldable pub row_to_peer_book_peer : ⦃json : AddrsJson⦄ → PeerBookRow → Result PeerBookPeer
row_to_peer_book_peer ⦃json⦄ row = elim (json.from_str row.addrs_json) [
  | none ↦ err (anyhow "conversion of addrs_json failed")
  | some addrs ↦ ok (record {
    peer_id = row.peer_id;
    addrs = addrs;
    user_id = row.user_id;
    device_id = row.device_id;
    last_seen_unix = row.last_seen;
  })
]

unfoldable pub collect_peers : ⦃json : AddrsJson⦄ → List PeerBookRow → Result (List PeerBookPeer)
unfolding row_to_peer_book_peer
collect_peers [] = ok []
collect_peers (row ∷ rows) = do
  peer ← row_to_peer_book_peer row
  peers ← collect_peers rows
  ok (peer ∷ peers)

-- ORDER BY last_seen DESC, peer_id ASC
abbrev pub book_le : ⦃sql : Sqlite⦄ → PeerBookRow → PeerBookRow → Bool
book_le ⦃sql⦄ r s =
    if ltb_ℤ s.last_seen r.last_seen
    then true
    else if ltb_ℤ r.last_seen s.last_seen
    then false
    else sql.text_le r.peer_id s.peer_id

-- WHERE, without or with a user; a NULL user matches none.
abbrev pub book_where : Option Text → ℤ → PeerBookRow → Bool
book_where none min_last_seen r = leb_ℤ min_last_seen r.last_seen
book_where (some user) min_last_seen r =
    opt_text_eq r.user_id (some user) && leb_ℤ min_last_seen r.last_seen

unfoldable pub list_peer_book :
    ⦃sql : Sqlite⦄ ⦃json : AddrsJson⦄
    → LocalStore
    → Option Text
    → ℤ
    → ℕ
    → Result (List PeerBookPeer)
unfolding collect_peers sort_by
list_peer_book db user_id min_last_seen_unix limit = collect_peers (
    limit_rows (as_i64 limit)
      (sort_by book_le (keep_if (book_where user_id min_last_seen_unix) db.peer_book)))
