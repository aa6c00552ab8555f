-- ===== src/P2p/Addrs.antt =====
-- src/p2p.rs: addresses of peers. A `Multiaddr` is the list of its protocols.
pub mod Split
pub mod Candidates
use rustory.Prelude.{
  ℕ, zero, suc, Text, Bool, true, false, Option, none, some, List, [], ◌∷◌, ◌++◌, ◌≡◌, refl, any_of,
  text_eq, ◌==◌, ◌||◌, ◌&&◌, not, if◌then◌else◌, arith,
}
use rustory.Errors.{Result, ok, err, anyhow}

-- `libp2p::PeerId`, by its bytes.
abbrev pub PeerId : Type 0
PeerId = List ℕ

-- `multiaddr::Protocol`: the address in an `Ip4` or `Ip6` as a number, 0 if it is unspecified.
pub data Protocol : Type 0 where
  ip4 : ℕ → Protocol
  ip6 : ℕ → Protocol
  p2p : PeerId → Protocol
  p2p_circuit : Protocol
  other : Text → Protocol

abbrev pub Multiaddr : Type 0
Multiaddr = List Protocol

-- The texts of addresses and peer ids: what is printed is read back.
pub record AddrText : Type 0 where
  pub parse_addr : Text → Option Multiaddr
  pub show_addr : Multiaddr → Text
  pub parse_addr-show_addr : (a : Multiaddr) → parse_addr (show_addr a) ≡ some a
  pub parse_peer_id : Text → Option PeerId
  pub show_peer_id : PeerId → Text
  pub parse_peer_id-show_peer_id : (p : PeerId) → parse_peer_id (show_peer_id p) ≡ some p

-- `addr.pop()`, with what it leaves.
unfoldable pub pop : Multiaddr → Option (Protocol × Multiaddr)
pop [] = none
pop (p ∷ addr) = elim (pop addr) [
  | none ↦ some (p, [])
  | some (last, front) ↦ some (last, p ∷ front)
]

abbrev pub push : Multiaddr → Protocol → Multiaddr
push addr p = addr ++ p ∷ []

with_suffix : Option (Protocol × Multiaddr) → Multiaddr → PeerId → Multiaddr
with_suffix (some (p2p got, front)) addr peer_id =
    if text_eq got peer_id then addr else push front (p2p peer_id)
with_suffix last addr peer_id = push addr (p2p peer_id)

unfoldable pub ensure_p2p_suffix : Multiaddr → PeerId → Multiaddr
unfolding pop with_suffix
ensure_p2p_suffix addr peer_id = with_suffix (pop addr) addr peer_id

abbrev pub is_unspecified : Protocol → Bool
is_unspecified (ip4 ip) = ip == 0
is_unspecified (ip6 ip) = ip == 0
is_unspecified p = false

abbrev pub is_circuit : Protocol → Bool
is_circuit p2p_circuit = true
is_circuit p = false

-- Behind an address that can be dialled directly.
abbrev pub is_indirect : Multiaddr → Bool
is_indirect addr = any_of (λ p. is_unspecified p || is_circuit p) addr

module _ ⦃text : AddrText⦄ where
  unfoldable pub dialable_tracker_addr_from_external_candidate : Multiaddr → PeerId → Option Text
  unfolding ensure_p2p_suffix
  dialable_tracker_addr_from_external_candidate addr peer_id =
      if is_indirect addr then none else some (text.show_addr (ensure_p2p_suffix addr peer_id))

-- if matches!(addr.iter().last(), Some(Protocol::P2p(_))) { addr.pop() }
unfoldable pub without_suffix : Option (Protocol × Multiaddr) → Multiaddr → Multiaddr
without_suffix (some (p2p peer_id, front)) addr = front
without_suffix last addr = addr

module _ ⦃text : AddrText⦄ where
  -- One parsed address, with the texts that have been seen.
  candidate : Multiaddr → List Text → (List Text → List Multiaddr) → List Multiaddr
  candidate addr seen rest =
      let base = without_suffix (pop addr) addr in
      let key = text.show_addr base in
      let skipped = rest seen in
      let taken = base ∷ rest (key ∷ seen) in
      if any_of is_unspecified addr
      then skipped
      else if any_of is_circuit addr
      then skipped
      else if any_of (text_eq key) seen
      then skipped
      else taken

  candidate_loop : List Text → List Text → List Multiaddr
  candidate_loop [] seen = []
  candidate_loop (raw ∷ addrs) seen =
      let rest = candidate_loop addrs in
      elim (text.parse_addr raw) [ none ↦ rest seen | some addr ↦ candidate addr seen rest ]

  unfoldable pub direct_candidate_addrs_from_tracker : List Text → List Multiaddr
  unfolding candidate_loop candidate without_suffix pop
  direct_candidate_addrs_from_tracker addrs = candidate_loop addrs []

  split_last : Option (Protocol × Multiaddr) → Result (PeerId × Multiaddr)
  split_last none = err (anyhow "peer multiaddr is empty")
  split_last (some (p2p peer_id, addr)) = ok (peer_id, addr)
  split_last (some (last, addr)) = err (anyhow "peer multiaddr must end with /p2p/<peer_id>")

  unfoldable pub split_peer_multiaddr : Text → Result (PeerId × Multiaddr)
  unfolding split_last pop
  split_peer_multiaddr value = elim (text.parse_addr value) [
    | none ↦ err (anyhow "parse peer multiaddr")
    | some addr ↦ split_last (pop addr)
  ]
