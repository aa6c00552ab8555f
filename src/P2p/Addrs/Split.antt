-- ===== src/P2p/Addrs/Split.antt =====
-- src/p2p.rs: addresses with the suffix of their peer.
use rustory.Prelude.{
  Option, none, some, [], ◌∷◌, ◌≡◌, refl, ap, text_eq, text_eq_iff, Bool-cases, inl, inr,
}
use rustory.Errors.{ok}
use rustory.P2p.Addrs.{
  PeerId, Protocol, p2p, ip4, ip6, p2p_circuit, other, Multiaddr, AddrText, pop, push, with_suffix,
  ensure_p2p_suffix, without_suffix, split_last, split_peer_multiaddr,
}

pop-push : (addr : Multiaddr) (p : Protocol) → pop (push addr p) ≡ some (p, addr)
unfolding pop
pop-push [] p = refl
pop-push (x ∷ addr) p = rw (pop-push addr p) refl

suffixed :
    (last : Option (Protocol × Multiaddr)) (addr : Multiaddr) (peer_id : PeerId)
    → pop addr ≡ last
    → pop (with_suffix last addr peer_id) ≡ some (p2p peer_id, without_suffix last addr)
unfolding with_suffix without_suffix
suffixed none addr peer_id h = pop-push addr (p2p peer_id)
suffixed (some (p2p got, front)) addr peer_id h = elim (Bool-cases (text_eq got peer_id)) [
  | inl same ↦ rw (same, h) (ap (λ p. some (p2p p, front)) ((text_eq_iff got peer_id).0 same))
  | inr differs ↦ rw differs (pop-push front (p2p peer_id))
]
suffixed (some (ip4 a, front)) addr peer_id h = pop-push addr (p2p peer_id)
suffixed (some (ip6 a, front)) addr peer_id h = pop-push addr (p2p peer_id)
suffixed (some (p2p_circuit, front)) addr peer_id h = pop-push addr (p2p peer_id)
suffixed (some (other a, front)) addr peer_id h = pop-push addr (p2p peer_id)

suffix_popped :
    (addr : Multiaddr) (peer_id : PeerId)
    → pop (ensure_p2p_suffix addr peer_id) ≡ some (p2p peer_id, without_suffix (pop addr) addr)
unfolding ensure_p2p_suffix
suffix_popped addr peer_id = suffixed (pop addr) addr peer_id refl

-- The text of an address that was given the suffix of a peer splits into this peer and the address
-- without the suffix that it may have had.
pub split_peer_multiaddr-ensure_p2p_suffix :
    ⦃text : AddrText⦄ (addr : Multiaddr) (peer_id : PeerId)
    → split_peer_multiaddr (text.show_addr (ensure_p2p_suffix addr peer_id))
      ≡ ok (peer_id, without_suffix (pop addr) addr)
unfolding split_peer_multiaddr split_last
split_peer_multiaddr-ensure_p2p_suffix ⦃text⦄ addr peer_id =
    let popped : pop (ensure_p2p_suffix addr peer_id)
        ≡ some (p2p peer_id, without_suffix (pop addr) addr) =
      suffix_popped addr peer_id in
    rw
      (
        split_peer_multiaddr,
        text.parse_addr-show_addr (ensure_p2p_suffix addr peer_id),
        popped,
        split_last,
      )
      refl
