-- ===== src/P2p/Addrs/Candidates.antt =====
-- src/p2p.rs: the addresses of a peer that can be dialled directly.
use rustory.Prelude.{
  Text, true, false, some, List, [], ◌∷◌, ◌≡◌, refl, any_of, All, text_eq, text_eq_refl, arith,
  Bool-cases, Option-cases, inl, inr,
}
use rustory.P2p.Addrs.{
  Multiaddr, AddrText, is_unspecified, is_circuit, pop, without_suffix, candidate, candidate_loop,
  direct_candidate_addrs_from_tracker,
}

module _ ⦃text : AddrText⦄ where
  -- It stands, up to the suffix of a peer, in the list, and leads neither through a relay nor to an
  -- unspecified address.
  pub record IsDialable (addrs : List Text) (base : Multiaddr) : Type 0 where
    pub raw : Text
    pub listed : any_of (text_eq raw) addrs ≡ true
    pub addr : Multiaddr
    pub parsed : text.parse_addr raw ≡ some addr
    pub specified : any_of is_unspecified addr ≡ false
    pub direct : any_of is_circuit addr ≡ false
    pub is_base : without_suffix (pop addr) addr ≡ base

  -- No text stands twice, nor among those seen.
  abbrev pub IsFresh : List Text → List Multiaddr → Type 0
  IsFresh seen [] = Unit
  IsFresh seen (base ∷ bases) =
      (any_of (text_eq (text.show_addr base)) seen ≡ false)
      × IsFresh (text.show_addr base ∷ seen) bases

  IsCandidate-more :
      (raw : Text) (addrs : List Text) (base : Multiaddr)
      → IsDialable addrs base
      → IsDialable (raw ∷ addrs) base
  IsCandidate-more raw addrs base c = record {
    raw = c.raw;
    listed = ground (arith, c.listed);
    addr = c.addr;
    parsed = c.parsed;
    specified = c.specified;
    direct = c.direct;
    is_base = c.is_base;
  }

  All-more :
      (raw : Text) (addrs : List Text) (bases : List Multiaddr)
      → All (IsDialable addrs) bases
      → All (IsDialable (raw ∷ addrs)) bases
  All-more raw addrs [] h = tt
  All-more raw addrs (b ∷ bases) h =
      (IsCandidate-more raw addrs b h.0, All-more raw addrs bases h.1)

  abbrev AreDialable : List Text → List Text → List Multiaddr → Type 0
  AreDialable addrs seen bases = All (IsDialable addrs) bases × IsFresh seen bases

  candidate_loop-IsFresh :
      (addrs : List Text) (seen : List Text) → AreDialable addrs seen (candidate_loop addrs seen)
  unfolding candidate_loop candidate
  candidate_loop-IsFresh [] seen = (tt, tt)
  candidate_loop-IsFresh (raw ∷ addrs) seen =
      let (old, fresh) = candidate_loop-IsFresh addrs seen in
      let skipped : AreDialable (raw ∷ addrs) seen (candidate_loop addrs seen) =
        (All-more raw addrs _ old, fresh) in
      elim (Option-cases (text.parse_addr raw)) [
        | inl e ↦ rw (candidate_loop, e) skipped
        | inr (addr, e) ↦ elim (Bool-cases (any_of is_unspecified addr)) [
          | inl u ↦ rw (candidate_loop, candidate, e, u) skipped
          | inr u ↦ elim (Bool-cases (any_of is_circuit addr)) [
            | inl c ↦ rw (candidate_loop, candidate, e, u, c) skipped
            | inr c ↦
                elim (Bool-cases
                  (any_of (text_eq (text.show_addr (without_suffix (pop addr) addr))) seen)) [
                    | inl s ↦ rw (candidate_loop, candidate, e, u, c, s) skipped
                    | inr s ↦
                        let (more, fresh') =
                          candidate_loop-IsFresh addrs
                            (text.show_addr (without_suffix (pop addr) addr) ∷ seen) in
                        rw (candidate_loop, candidate, e, u, c, s)
                          (
                            (
                              record {
                                raw = raw;
                                listed = ground (arith, text_eq_refl raw);
                                addr = addr;
                                parsed = e;
                                specified = u;
                                direct = c;
                                is_base = refl;
                              },
                              All-more raw addrs _ more,
                            ),
                            (s, fresh'),
                          )
                  ]
          ]
        ]
      ]

  -- Each candidate comes from an address of the list that parses and leads neither through a relay nor
  -- to an unspecified address, less the suffix of the peer, and no two of them have the same text.
  pub direct_candidate_addrs-IsFresh :
      (addrs : List Text)
      → All (IsDialable addrs) (direct_candidate_addrs_from_tracker addrs)
        × IsFresh [] (direct_candidate_addrs_from_tracker addrs)
  unfolding direct_candidate_addrs_from_tracker
  direct_candidate_addrs-IsFresh addrs = candidate_loop-IsFresh addrs []
