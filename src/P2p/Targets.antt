-- ===== src/P2p/Targets.antt =====
-- src/p2p.rs: the peers of a run, from the command line, from the trackers or from the peer book. The
-- clock, the trackers and their answers are arguments.
pub mod Manual
use rustory.Prelude.{
  ℕ, ℤ, pos, ◌-ℤ◌, Text, Bool, true, false, Option, none, some, List, [], ◌∷◌, is_empty,
  opt_text_eq, text_eq, not, if◌then◌else◌, ◌&&◌,
}
use rustory.Prelude.Words.{trim}
use rustory.Errors.{Result, ok, err, anyhow, ◌>>=◌}
use rustory.Storage.Schema.{Sqlite, AddrsJson, LocalStore}
use rustory.Storage.Peers.{
  PeerBookPeer, get_last_cursor_opt, set_last_cursor, get_last_pushed_seq_opt, set_last_pushed_seq,
  upsert_peer_book, list_peer_book,
}
use rustory.Tracker.{PeerMeta, PeerInfo}
use rustory.P2p.Addrs.{
  PeerId, Multiaddr, AddrText, split_peer_multiaddr, direct_candidate_addrs_from_tracker,
}

pub record SyncTarget : Type 0 where
  pub peer_id : PeerId
  pub peer_key : Text
  pub direct_addrs : List Multiaddr
  pub relay_addr : Option Multiaddr

-- The fields of `SyncConfig` that the choice of peers reads.
pub record SyncConfig : Type 0 where
  pub relay_addr : Option Multiaddr
  pub trackers : List Text
  pub user_id : Option Text
  pub device_id : Option Text

copied_cursor : Option ℤ → Option ℤ → Text → LocalStore → LocalStore
copied_cursor none (some old_cursor) peer_key store = set_last_cursor store peer_key old_cursor
copied_cursor have old peer_key store = store

copied_seq : Option ℤ → Option ℤ → Text → LocalStore → LocalStore
copied_seq none (some old_seq) peer_key store = set_last_pushed_seq store peer_key old_seq
copied_seq have old peer_key store = store

-- The cursors under the key of the address, copied to the key of the peer.
unfoldable pub migrate_cursors : LocalStore → Text → Text → LocalStore
unfolding copied_cursor copied_seq
migrate_cursors store peer_key peer_key_old =
    let store' =
      copied_cursor (get_last_cursor_opt store peer_key) (get_last_cursor_opt store peer_key_old)
        peer_key store in
    copied_seq (get_last_pushed_seq_opt store' peer_key)
      (get_last_pushed_seq_opt store' peer_key_old) peer_key store'

-- A result beside the store that the code leaves.
abbrev pub Stored : Type 0 → Type 0
Stored A = Result A × LocalStore

abbrev and_then : {A B : Type 0} → Stored A → (A → LocalStore → Stored B) → Stored B
and_then (ok a, store) f = f a store
and_then (err e, store) f = (err e, store)

module _ ⦃text : AddrText⦄ ⦃json : AddrsJson⦄ (now : ℤ) where
  noted_target : LocalStore → Option Multiaddr → Text → PeerId × Multiaddr → Stored SyncTarget
  noted_target store relay_addr peer_key_old (peer_id, base_addr) =
      let peer_key = text.show_peer_id peer_id in
      (
        ok (record {
          peer_id = peer_id;
          peer_key = peer_key;
          direct_addrs = base_addr ∷ [];
          relay_addr = relay_addr;
        }),
        upsert_peer_book (migrate_cursors store peer_key peer_key_old) (record {
          peer_id = peer_key;
          addrs = peer_key_old ∷ [];
          user_id = none;
          device_id = none;
          last_seen_unix = now;
        }),
      )

  unfoldable pub manual_target : LocalStore → Option Multiaddr → Text → Stored SyncTarget
  unfolding noted_target
  manual_target store relay_addr peer_key_old =
      and_then (split_peer_multiaddr peer_key_old, store)
        (λ split store'. noted_target store' relay_addr peer_key_old split)

  unfoldable pub build_manual_targets :
      LocalStore → List Text → Option Multiaddr → Stored (List SyncTarget)
  unfolding manual_target
  build_manual_targets store [] relay_addr = (ok [], store)
  build_manual_targets store (peer_addr ∷ peers) relay_addr =
      let skipped = build_manual_targets store peers relay_addr in
      let added = and_then (manual_target store relay_addr (trim peer_addr)) (λ target store'.
        and_then (build_manual_targets store' peers relay_addr)
          (λ targets store''. (ok (target ∷ targets), store''))) in
      if is_empty (trim peer_addr) then skipped else added

abbrev device_of : Option PeerMeta → Option Text
device_of none = none
device_of (some meta) = meta.device_id

abbrev user_of : Option PeerMeta → Option Text
user_of none = none
user_of (some meta) = meta.user_id

-- A device of one's own is known and the same.
abbrev pub is_self : Option Text → Option Text → Bool
is_self none device = false
is_self (some mine) device = opt_text_eq device (some mine)

-- `by_peer.entry(id).or_insert(peer)` and `by_peer.insert(id, peer)`, in an order of the table.
unfoldable pub or_insert : Text → PeerInfo → List (Text × PeerInfo) → List (Text × PeerInfo)
or_insert id peer [] = (id, peer) ∷ []
or_insert id peer ((key, old) ∷ table) =
    if text_eq key id then (key, old) ∷ table else (key, old) ∷ or_insert id peer table

unfoldable pub insert_info : Text → PeerInfo → List (Text × PeerInfo) → List (Text × PeerInfo)
insert_info id peer [] = (id, peer) ∷ []
insert_info id peer ((key, old) ∷ table) =
    if text_eq key id then (key, peer) ∷ table else (key, old) ∷ insert_info id peer table

module _ ⦃json : AddrsJson⦄ where
  -- The peers that one tracker has listed.
  unfoldable pub listed_loop :
      Option Text
      → List PeerInfo
      → LocalStore × List (Text × PeerInfo)
      → LocalStore × List (Text × PeerInfo)
  unfolding or_insert
  listed_loop device_id [] found = found
  listed_loop device_id (p ∷ peers) (store, by_peer) =
      let skipped = listed_loop device_id peers (store, by_peer) in
      let noted = listed_loop device_id peers (
        upsert_peer_book store (record {
          peer_id = p.peer_id;
          addrs = p.addrs;
          user_id = user_of p.meta;
          device_id = device_of p.meta;
          last_seen_unix = p.last_seen_unix;
        }),
        or_insert p.peer_id p by_peer,
      ) in
      if is_self device_id (device_of p.meta) then skipped else noted

  -- The trackers in turn; one that fails is skipped.
  unfoldable pub tracker_loop :
      Option Text
      → (Text → Result (List PeerInfo))
      → List Text
      → LocalStore × List (Text × PeerInfo)
      → LocalStore × List (Text × PeerInfo)
  unfolding listed_loop
  tracker_loop device_id list [] found = found
  tracker_loop device_id list (base_url ∷ trackers) found =
      let rest = tracker_loop device_id list trackers in
      elim (list base_url) [
        | ok peers ↦ rest (listed_loop device_id peers found)
        | err e ↦ rest found
      ]

cached_info : PeerBookPeer → PeerInfo
cached_info peer = record {
  peer_id = peer.peer_id;
  addrs = peer.addrs;
  meta = some (record {
    device_id = peer.device_id;
    hostname = none;
    user_id = peer.user_id;
    version = none;
  });
  last_seen_unix = peer.last_seen_unix;
}

unfoldable pub cached_loop :
    Option Text → List PeerBookPeer → List (Text × PeerInfo) → List (Text × PeerInfo)
unfolding insert_info cached_info
cached_loop device_id [] by_peer = by_peer
cached_loop device_id (peer ∷ peers) by_peer =
    let skipped = cached_loop device_id peers by_peer in
    let noted = cached_loop device_id peers (insert_info peer.peer_id (cached_info peer) by_peer) in
    if is_self device_id peer.device_id then skipped else noted

module _ ⦃text : AddrText⦄ where
  discovered : PeerId → Text → PeerInfo → Multiaddr → SyncTarget
  discovered peer_id peer_key peer relay_addr = record {
    peer_id = peer_id;
    peer_key = peer_key;
    direct_addrs = direct_candidate_addrs_from_tracker peer.addrs;
    relay_addr = some relay_addr;
  }

  -- One's own device and ids that do not parse are left out.
  unfoldable pub target_loop : Option Text → Multiaddr → List (Text × PeerInfo) → List SyncTarget
  unfolding discovered
  target_loop device_id relay_addr [] = []
  target_loop device_id relay_addr ((peer_id_str, peer) ∷ by_peer) =
      let rest = target_loop device_id relay_addr by_peer in
      if is_self device_id (device_of peer.meta)
      then rest
      else elim (text.parse_peer_id peer_id_str) [
        | none ↦ rest
        | some peer_id ↦ discovered peer_id peer_id_str peer relay_addr ∷ rest
      ]

  found_targets : List SyncTarget → Result (List SyncTarget)
  found_targets [] = err (anyhow "no valid peers found after discovery")
  found_targets (target ∷ targets) = ok (target ∷ targets)

module _ ⦃text : AddrText⦄ ⦃sql : Sqlite⦄ ⦃json : AddrsJson⦄ where
  some_peers : SyncConfig → Multiaddr → List (Text × PeerInfo) → Result (List SyncTarget)
  some_peers cfg relay_addr by_peer =
      if is_empty by_peer
      then err (anyhow "no peers found from trackers and peer_book cache is empty")
      else found_targets (target_loop cfg.device_id relay_addr by_peer)

  -- The peer book of the last seven days stands in where no tracker lists a peer.
  from_trackers_or_book :
      SyncConfig → Multiaddr → ℤ → LocalStore × List (Text × PeerInfo) → Stored (List SyncTarget)
  from_trackers_or_book cfg relay_addr now (store, []) = (
    list_peer_book store cfg.user_id (now -ℤ pos 604_800) 1000 >>= λ cached.
        some_peers cfg relay_addr (cached_loop cfg.device_id cached []),
    store,
  )
  from_trackers_or_book cfg relay_addr now (store, peer ∷ by_peer) =
      (some_peers cfg relay_addr (peer ∷ by_peer), store)

  -- `list` asks the tracker at a URL for the peers of the user.
  unfoldable pub discover_targets :
      (Text → Result (List PeerInfo)) → ℤ → LocalStore → SyncConfig → Stored (List SyncTarget)
  unfolding tracker_loop cached_loop target_loop found_targets some_peers from_trackers_or_book
  discover_targets list now store cfg =
      if is_empty cfg.trackers
      then (err (anyhow "no peers provided and no trackers configured"), store)
      else elim cfg.relay_addr [
        | none ↦ (err (anyhow "relay_addr required for tracker-based sync"), store)
        | some relay_addr ↦
            from_trackers_or_book cfg relay_addr now
              (tracker_loop cfg.device_id list cfg.trackers (store, []))
      ]
