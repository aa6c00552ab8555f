-- ===== src/Tracker/Peers.antt =====
-- src/tracker.rs: the table of peers under registrations and expiry.
use rustory.Prelude.{
  ℕ, ℤ, Text, Bool, true, false, Option, none, some, List, [], ◌∷◌, ◌≡◌, refl, ◌∙◌, sym, arith,
  keep_if, text_eq, text_eq_iff, if◌then◌else◌, ◌==◌, Bool-cases, inl, inr, ◌||◌,
}
use mathlib.Core.Path.{subst}
use rustory.Tracker.{
  PeerRecord, TrackerState, RegisterRequest, is_fresh, prune_expired, insert_peer, register_peer,
  trimmed_addrs,
}

unfoldable pub lookup_peer : Text → List (Text × PeerRecord) → Option PeerRecord
lookup_peer id [] = none
lookup_peer id ((key, rec) ∷ peers) = if text_eq key id then some rec else lookup_peer id peers

abbrev has_peer : Text → List (Text × PeerRecord) → Bool
has_peer id [] = false
has_peer id ((key, rec) ∷ peers) = text_eq key id || has_peer id peers

-- No id stands twice in the table.
abbrev pub UniquePeers : List (Text × PeerRecord) → Type 0
UniquePeers [] = Unit
UniquePeers ((key, rec) ∷ peers) = (has_peer key peers ≡ false) × UniquePeers peers

has_peer-keep_if :
    (p : Text × PeerRecord → Bool) (id : Text) (peers : List (Text × PeerRecord))
    → has_peer id peers ≡ false
    → has_peer id (keep_if p peers) ≡ false
has_peer-keep_if p id [] h = refl
has_peer-keep_if p id ((key, rec) ∷ peers) h = ground (arith, has_peer-keep_if p id peers, h)

pub keep_if-UniquePeers :
    (p : Text × PeerRecord → Bool) (peers : List (Text × PeerRecord))
    → UniquePeers peers
    → UniquePeers (keep_if p peers)
keep_if-UniquePeers p [] u = tt
keep_if-UniquePeers p ((key, rec) ∷ peers) u = elim (Bool-cases (p (key, rec))) [
  | inl t ↦ rw t (has_peer-keep_if p key peers u.0, keep_if-UniquePeers p peers u.1)
  | inr f ↦ rw f (keep_if-UniquePeers p peers u.1)
]

has_peer-insert_peer :
    (id peer_id : Text) (rec : PeerRecord) (peers : List (Text × PeerRecord))
    → has_peer id (insert_peer peer_id rec peers) ≡ (text_eq peer_id id || has_peer id peers)
unfolding insert_peer
has_peer-insert_peer id peer_id rec [] = refl
has_peer-insert_peer id peer_id rec ((key, old) ∷ peers) = elim (Bool-cases (text_eq key peer_id)) [
  | inl t ↦
      rw t (let same : key ≡ peer_id = (text_eq_iff key peer_id).0 t in rw same (ground arith))
  | inr f ↦ rw f (ground (arith, has_peer-insert_peer id peer_id rec peers))
]

insert_peer-UniquePeers :
    (peer_id : Text) (rec : PeerRecord) (peers : List (Text × PeerRecord))
    → UniquePeers peers
    → UniquePeers (insert_peer peer_id rec peers)
unfolding insert_peer
insert_peer-UniquePeers peer_id rec [] u = (refl, tt)
insert_peer-UniquePeers peer_id rec ((key, old) ∷ peers) u =
    elim (Bool-cases (text_eq key peer_id)) [
      | inl t ↦ rw t u
      | inr f ↦ rw f (
        ground (
          arith,
          has_peer-insert_peer key peer_id rec peers,
          u.0,
          text_eq_iff key peer_id,
          text_eq_iff peer_id key,
        ),
        insert_peer-UniquePeers peer_id rec peers u.1,
      )
    ]

lookup_peer-insert_peer :
    (id peer_id : Text) (rec : PeerRecord) (peers : List (Text × PeerRecord))
    → lookup_peer id (insert_peer peer_id rec peers)
      ≡ (if text_eq peer_id id then some rec else lookup_peer id peers)
unfolding lookup_peer insert_peer
lookup_peer-insert_peer id peer_id rec [] = refl
lookup_peer-insert_peer id peer_id rec ((key, old) ∷ peers) =
    elim (Bool-cases (text_eq key peer_id)) [
      | inl t ↦
          rw t (let same : key ≡ peer_id = (text_eq_iff key peer_id).0 t in rw same (ground arith))
      | inr f ↦ rw f (
          ground (
            arith,
            lookup_peer-insert_peer id peer_id rec peers,
            text_eq_iff key peer_id,
            text_eq_iff key id,
            text_eq_iff peer_id id,
          ))
    ]

-- What is left of a record at a time.
abbrev pub unexpired : ℤ → ℕ → Option PeerRecord → Option PeerRecord
unexpired now ttl_sec none = none
unexpired now ttl_sec (some rec) =
    if ttl_sec == 0 then none else if is_fresh now ttl_sec rec then some rec else none

lookup_peer-absent :
    (id : Text) (peers : List (Text × PeerRecord))
    → has_peer id peers ≡ false
    → lookup_peer id peers ≡ none
unfolding lookup_peer
lookup_peer-absent id [] h = refl
lookup_peer-absent id ((key, rec) ∷ peers) h = ground (arith, lookup_peer-absent id peers, h)

lookup_peer-keep_if :
    (now : ℤ) (ttl_sec : ℕ) (id : Text) (peers : List (Text × PeerRecord))
    → UniquePeers peers
    → (ttl_sec == 0) ≡ false
    → lookup_peer id (keep_if (λ (key, rec). is_fresh now ttl_sec rec) peers)
      ≡ unexpired now ttl_sec (lookup_peer id peers)
unfolding lookup_peer
lookup_peer-keep_if now ttl_sec id [] u pos_ttl = refl
lookup_peer-keep_if now ttl_sec id ((key, rec) ∷ peers) u pos_ttl =
    let rest = lookup_peer-keep_if now ttl_sec id peers u.1 pos_ttl in
    elim (Bool-cases (text_eq key id)) [
      | inl here ↦
          let same : key ≡ id = (text_eq_iff key id).0 here in
          let gone = lookup_peer-absent id peers (subst (λ k. has_peer k peers ≡ false) same u.0) in
          elim (Bool-cases (is_fresh now ttl_sec rec)) [
            | inl fresh ↦ rw (fresh, here) (rw (pos_ttl, fresh) refl)
            | inr stale ↦ rw (stale, here) (rw (rest, gone, pos_ttl, stale) refl)
          ]
      | inr there ↦ elim (Bool-cases (is_fresh now ttl_sec rec)) [
        | inl fresh ↦ rw (fresh, there) rest
        | inr stale ↦ rw (stale, there) rest
      ]
    ]

unexpired_never :
    (now : ℤ) (ttl_sec : ℕ) (rec : Option PeerRecord)
    → (ttl_sec == 0) ≡ true
    → unexpired now ttl_sec rec ≡ none
unexpired_never now ttl_sec none h = refl
unexpired_never now ttl_sec (some rec) h = rw h refl

lookup_peer-prune_expired :
    (state : TrackerState) (now : ℤ) (ttl_sec : ℕ) (id : Text)
    → UniquePeers state.peers
    → lookup_peer id (prune_expired state now ttl_sec).peers
      ≡ unexpired now ttl_sec (lookup_peer id state.peers)
unfolding prune_expired lookup_peer
lookup_peer-prune_expired state now ttl_sec id u = elim (Bool-cases (ttl_sec == 0)) [
  | inl t ↦ rw t (sym (unexpired_never now ttl_sec (lookup_peer id state.peers) t))
  | inr f ↦ rw f (lookup_peer-keep_if now ttl_sec id state.peers u f)
]

pub prune_expired-UniquePeers :
    (state : TrackerState) (now : ℤ) (ttl_sec : ℕ)
    → UniquePeers state.peers
    → UniquePeers (prune_expired state now ttl_sec).peers
unfolding prune_expired
prune_expired-UniquePeers state now ttl_sec u = elim (Bool-cases (ttl_sec == 0)) [
  | inl t ↦ rw t tt
  | inr f ↦ rw f (keep_if-UniquePeers _ state.peers u)
]

-- After a registration in a table where no id stands twice, the peer has the record of the request, with
-- its addresses trimmed and the empty ones left out and the time as last seen, and every other
-- peer has its old record if this has not expired; no id stands twice.
pub lookup_peer-register_peer :
    (state : TrackerState) (now : ℤ) (ttl_sec : ℕ) (peer_id : Text) (reg : RegisterRequest)
    (id : Text)
    → UniquePeers state.peers
    → (lookup_peer id (register_peer state now ttl_sec peer_id reg).peers ≡ (
        if text_eq peer_id id
        then some
            (record { addrs = trimmed_addrs reg.addrs; meta = reg.meta; last_seen_unix = now })
        else unexpired now ttl_sec (lookup_peer id state.peers)))
      × UniquePeers (register_peer state now ttl_sec peer_id reg).peers
unfolding register_peer
lookup_peer-register_peer state now ttl_sec peer_id reg id u = (
  lookup_peer-insert_peer id peer_id _ (prune_expired state now ttl_sec).peers
      ∙ rw (lookup_peer-prune_expired state now ttl_sec id u) refl,
  insert_peer-UniquePeers peer_id _ (prune_expired state now ttl_sec).peers
      (prune_expired-UniquePeers state now ttl_sec u),
)
