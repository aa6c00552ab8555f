-- ===== src/P2p/Serve.antt =====
-- src/p2p.rs: `serve_async`, a step on the server's variables for each event of the swarm. What is
-- sent to the trackers and to peers is recorded.
use rustory.Prelude.{
  ℕ, ℤ, Text, Bool, true, false, Option, none, some, List, [], ◌∷◌, ◌≡◌, refl, All, any_of, text_eq,
  is_empty, if◌then◌else◌, Bool-cases, inl, inr,
}
use rustory.Errors.{Result, ok, err}
use rustory.Core.{Entry, TimeApi}
use rustory.Storage.Schema.{Sqlite, LocalStore}
use rustory.Storage.Entries.{PullBatch, pull_since_cursor, insert_entries_with_stats}
use rustory.Storage.Entries.Invariant.{IsWellFormed, IsReadable, IsAccepted}
use rustory.Storage.Entries.Insert.{insert_entries-IsReadable}
use rustory.Storage.Entries.Pull.{pull_since_cursor_lem}
use rustory.Storage.Entries.Extended.{IsExtended, IsExtended-trans, insert_entries-IsExtended}
use rustory.P2p.Addrs.{
  PeerId, Multiaddr, AddrText, ensure_p2p_suffix, dialable_tracker_addr_from_external_candidate,
}
use rustory.P2p.Client.{PushAck}

-- The events that the server acts on.
pub data ServeEvent (T : Type 0) : Type 0 where
  tick : ServeEvent T
  new_listen_addr : Multiaddr → ServeEvent T
  external_addr_candidate : Multiaddr → ServeEvent T
  external_addr_confirmed : Multiaddr → ServeEvent T
  sync_request : ℤ → ℕ → ServeEvent T
  push_request : List (Entry T) → ServeEvent T
  other_event : ServeEvent T

pub data Sent (T : Type 0) : Type 0 where
  sync_response : PullBatch T → Sent T
  push_response : PushAck → Sent T

-- `known_addrs` is a set; `registered` and `sent` stand with the last one first.
pub record ServeState (T : Type 0) : Type 0 where
  pub store : LocalStore
  pub known_addrs : List Text
  pub registered : List (List Text)
  pub sent : List (Sent T)

-- `HashSet::insert`
unfoldable pub insert_addr : Text → List Text → List Text
insert_addr addr addrs = if any_of (text_eq addr) addrs then addrs else addr ∷ addrs

-- `spawn_register_all` where there are trackers.
register_all : {T : Type 0} → Bool → ServeState T → ServeState T
register_all has_trackers s =
    if has_trackers then record s { registered = s.known_addrs ∷ s.registered } else s

add_external : {T : Type 0} → Bool → Option Text → ServeState T → ServeState T
add_external has_trackers none s = s
add_external has_trackers (some full) s =
    if any_of (text_eq full) s.known_addrs
    then s
    else register_all has_trackers (record s { known_addrs = insert_addr full s.known_addrs })

pull_sent : {T : Type 0} → ServeState T → Result (PullBatch T) → Result (Unit {0}) × ServeState T
pull_sent s (ok batch) = (ok tt, record s { sent = sync_response batch ∷ s.sent })
pull_sent s (err e) = (err e, s)

serve_on :
    {T : Type 0}
    → (ServeState T → Result (Unit {0}) × ServeState T)
    → Result (Unit {0}) × ServeState T
    → Result (Unit {0}) × ServeState T
serve_on again (ok u, s) = again s
serve_on again (err e, s) = (err e, s)

module _ {T : Type 0} ⦃text : AddrText⦄ ⦃time : TimeApi T⦄ ⦃sql : Sqlite⦄ (local_peer_id : PeerId)
    (has_trackers : Bool) where
  -- An error ends the server.
  unfoldable pub serve_event : ServeState T → ServeEvent T → Result (Unit {0}) × ServeState T
  unfolding register_all add_external insert_addr pull_sent
  serve_event s tick = (ok tt, if is_empty s.known_addrs then s else register_all has_trackers s)
  serve_event s (new_listen_addr address) =
      let full = text.show_addr (ensure_p2p_suffix address local_peer_id) in
      (ok tt, register_all has_trackers (record s { known_addrs = insert_addr full s.known_addrs }))
  serve_event s (external_addr_candidate address) = (
    ok tt,
    add_external has_trackers (dialable_tracker_addr_from_external_candidate address local_peer_id)
        s,
  )
  serve_event s (external_addr_confirmed address) = (
    ok tt,
    add_external has_trackers (dialable_tracker_addr_from_external_candidate address local_peer_id)
        s,
  )
  serve_event s (sync_request cursor limit) = pull_sent s (pull_since_cursor s.store cursor limit)
  serve_event s (push_request entries) =
      let (store, stats) = insert_entries_with_stats s.store entries in
      let ack : PushAck = record {
        is_ok = true;
        inserted = some stats.inserted;
        ignored = some stats.ignored;
      } in
      (ok tt, record s { store = store; sent = push_response ack ∷ s.sent })
  serve_event s other_event = (ok tt, s)

  -- The events in turn, up to the first error.
  unfoldable pub serve_events :
      List (ServeEvent T) → ServeState T → Result (Unit {0}) × ServeState T
  unfolding serve_event serve_on
  serve_events [] s = (ok tt, s)
  serve_events (event ∷ events) s = serve_on (serve_events events) (serve_event s event)

-- No address stands twice in the set.
abbrev pub AllDistinct : List Text → Type 0
AllDistinct [] = Unit
AllDistinct (addr ∷ addrs) = (any_of (text_eq addr) addrs ≡ false) × AllDistinct addrs

-- The server's invariant from the store `db` on: only entries have been added, all with
-- a time that is a date, no address is known
-- twice, and no empty list of addresses was registered.
pub record IsServer {T : Type 0} (time : TimeApi T) (db : LocalStore) (s : ServeState T)
    : Type 0 where
  pub extended : IsExtended db s.store
  pub readable : All (IsReadable time) s.store.entries
  pub distinct : AllDistinct s.known_addrs
  pub listed : All (λ addrs. is_empty addrs ≡ false) s.registered

insert_addr-AllDistinct :
    (addr : Text) (addrs : List Text) → AllDistinct addrs → AllDistinct (insert_addr addr addrs)
unfolding insert_addr
insert_addr-AllDistinct addr addrs h = elim (Bool-cases (any_of (text_eq addr) addrs)) [
  | inl t ↦ rw t h
  | inr f ↦ rw f (f, h)
]

insert_addr-nonempty : (addr : Text) (addrs : List Text) → is_empty (insert_addr addr addrs) ≡ false
unfolding insert_addr
insert_addr-nonempty addr [] = refl
insert_addr-nonempty addr (x ∷ addrs) = elim (Bool-cases (any_of (text_eq addr) (x ∷ addrs))) [
  | inl t ↦ rw t refl
  | inr f ↦ rw f refl
]

module _ {T : Type 0} (time : TimeApi T) (db : LocalStore) where
  register_all-IsServer :
      (has_trackers : Bool) (s : ServeState T)
      → is_empty s.known_addrs ≡ false
      → IsServer time db s
      → IsServer time db (register_all has_trackers s)
  unfolding register_all
  register_all-IsServer true s h k = record {
    extended = k.extended;
    readable = k.readable;
    distinct = k.distinct;
    listed = (h, k.listed);
  }
  register_all-IsServer false s h k = k

  known-IsServer :
      (has_trackers : Bool) (s : ServeState T) (addr : Text)
      → IsServer time db s
      → IsServer time db
          (register_all has_trackers (record s { known_addrs = insert_addr addr s.known_addrs }))
  known-IsServer has_trackers s addr k =
      register_all-IsServer has_trackers _ (insert_addr-nonempty addr s.known_addrs) (record {
        extended = k.extended;
        readable = k.readable;
        distinct = insert_addr-AllDistinct addr s.known_addrs k.distinct;
        listed = k.listed;
      })

  add_external-IsServer :
      (has_trackers : Bool) (full : Option Text) (s : ServeState T)
      → IsServer time db s
      → IsServer time db (add_external has_trackers full s)
  unfolding add_external
  add_external-IsServer has_trackers none s k = k
  add_external-IsServer has_trackers (some full) s k =
      elim (Bool-cases (any_of (text_eq full) s.known_addrs)) [
        | inl t ↦ rw t k
        | inr f ↦ rw f (known-IsServer has_trackers s full k)
      ]

module _ {T : Type 0} ⦃text : AddrText⦄ ⦃time : TimeApi T⦄ ⦃sql : Sqlite⦄ (local_peer_id : PeerId)
    (has_trackers : Bool) (db : LocalStore) where
  abbrev pub IsRunning : Result (Unit {0}) × ServeState T → Type 0
  IsRunning r = (r.0 ≡ ok tt) × IsServer time db r.1

  -- What a push request brings in has times that are dates again.
  abbrev pub IsAcceptedPush : ServeEvent T → Type 0
  IsAcceptedPush (push_request entries) = All (IsAccepted time) entries
  IsAcceptedPush tick = Unit
  IsAcceptedPush (new_listen_addr address) = Unit
  IsAcceptedPush (external_addr_candidate address) = Unit
  IsAcceptedPush (external_addr_confirmed address) = Unit
  IsAcceptedPush (sync_request cursor limit) = Unit
  IsAcceptedPush other_event = Unit

  served : (s : ServeState T) → IsServer time db s → IsWellFormed time s.store
  served s k = record {
    rising = k.extended.ordered.rising;
    unique = k.extended.ordered.unique;
    readable = k.readable;
  }

  serve_event-IsRunning :
      (s : ServeState T) (event : ServeEvent T)
      → IsServer time db s
      → IsAcceptedPush event
      → IsRunning (serve_event local_peer_id has_trackers s event)
  unfolding serve_event pull_sent
  serve_event-IsRunning s tick k a = elim (Bool-cases (is_empty s.known_addrs)) [
    | inl t ↦ rw t (refl, k)
    | inr f ↦ rw f (refl, register_all-IsServer time db has_trackers s f k)
  ]
  serve_event-IsRunning s (new_listen_addr address) k a = (
    refl,
    known-IsServer time db has_trackers s (text.show_addr (ensure_p2p_suffix address local_peer_id))
        k,
  )
  serve_event-IsRunning s (external_addr_candidate address) k a =
      (refl, add_external-IsServer time db has_trackers _ s k)
  serve_event-IsRunning s (external_addr_confirmed address) k a =
      (refl, add_external-IsServer time db has_trackers _ s k)
  serve_event-IsRunning s (sync_request cursor limit) k a =
      rw (pull_since_cursor_lem {T = T} s.store cursor limit (served s k)) (
        refl,
        record {
          extended = k.extended;
          readable = k.readable;
          distinct = k.distinct;
          listed = k.listed;
        },
      )
  serve_event-IsRunning s (push_request entries) k a = (
    refl,
    record {
      extended =
          IsExtended-trans db s.store (insert_entries_with_stats s.store entries).0 k.extended
            (insert_entries-IsExtended s.store entries k.extended.ordered);
      readable = insert_entries-IsReadable s.store entries k.readable a;
      distinct = k.distinct;
      listed = k.listed;
    },
  )
  serve_event-IsRunning s other_event k a = (refl, k)

  serve_on-IsRunning :
      (go : ServeState T → Result (Unit {0}) × ServeState T) (r : Result (Unit {0}) × ServeState T)
      → ((s : ServeState T) → IsServer time db s → IsRunning (go s))
      → IsRunning r
      → IsRunning (serve_on go r)
  unfolding serve_on
  serve_on-IsRunning go (ok u, s) h k = h s k.1
  serve_on-IsRunning go (err e, s) h k = absurd (cc (k.0))

  -- Whatever the swarm reports, as long as the times of the pushed entries are accepted as a date, the
  -- server goes on, and its invariant stands: the rows of the store stay in place with new ones behind
  -- them, keys still rise, no entry id stands twice, every stored time is a date, the tables of peers
  -- do not change, no address is known twice, and no empty list of addresses goes to the trackers.
  pub serve_events-IsRunning :
      (events : List (ServeEvent T)) (s : ServeState T)
      → IsServer time db s
      → All IsAcceptedPush events
      → IsRunning (serve_events local_peer_id has_trackers events s)
  unfolding serve_events serve_on
  serve_events-IsRunning [] s k a = (refl, k)
  serve_events-IsRunning (event ∷ events) s k a =
      serve_on-IsRunning (serve_events local_peer_id has_trackers events)
        (serve_event local_peer_id has_trackers s event)
        (λ s' k'. serve_events-IsRunning events s' k' a.1) (serve_event-IsRunning s event k a.0)
