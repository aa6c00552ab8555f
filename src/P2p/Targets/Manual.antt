-- ===== src/P2p/Targets/Manual.antt =====
-- src/p2p.rs: the cursors of a peer that is given by its address.
use rustory.Prelude.{
  ℤ, Text, Option, none, some, List, [], ◌∷◌, is_empty, ◌≡◌, refl, text_eq, if◌then◌else◌,
  Bool-cases, text_eq_iff, ap, sym, ◌∙◌, inl, inr,
}
use rustory.Prelude.Words.{trim}
use rustory.Errors.{ok, err, Result-cases}
use rustory.Storage.Schema.{AddrsJson, LocalStore}
use rustory.Storage.Peers.{
  PeerBookPeer, upsert_peer_book, get_last_cursor_opt, set_last_cursor, get_last_pushed_seq_opt,
  set_last_pushed_seq,
}
use rustory.Storage.Peers.Cursors.{select_peer-upsert_peer}
use rustory.P2p.Addrs.{Multiaddr, AddrText, split_peer_multiaddr}
use rustory.P2p.Targets.{
  migrate_cursors, copied_cursor, copied_seq, Stored, and_then, noted_target, manual_target,
  build_manual_targets,
}

-- What stands first.
abbrev pub or_else : Option ℤ → Option ℤ → Option ℤ
or_else none b = b
or_else (some a) b = some a

at_key :
    (f : Text → Option ℤ) (key j : Text) (v : Option ℤ)
    → f key ≡ v
    → f j ≡ (if text_eq key j then v else f j)
at_key f key j v e = elim (Bool-cases (text_eq key j)) [
  | inl same ↦ rw same (ap f (sym ((text_eq_iff key j).0 same)) ∙ e)
  | inr differs ↦ rw differs refl
]

cursor_copied :
    (db : LocalStore) (key j : Text) (have old : Option ℤ)
    → get_last_cursor_opt db key ≡ have
    → (get_last_cursor_opt (copied_cursor have old key db) j
        ≡ (if text_eq key j then or_else have old else get_last_cursor_opt db j))
      × ((k : Text)
          → get_last_pushed_seq_opt (copied_cursor have old key db) k
            ≡ get_last_pushed_seq_opt db k)
unfolding copied_cursor get_last_cursor_opt set_last_cursor get_last_pushed_seq_opt
cursor_copied db key j none (some c) e = (select_peer-upsert_peer key j c db.peer_state, λ k. refl)
cursor_copied db key j none none e = (at_key (get_last_cursor_opt db) key j none e, λ k. refl)
cursor_copied db key j (some c) old e =
    (at_key (get_last_cursor_opt db) key j (some c) e, λ k. refl)

seq_copied :
    (db : LocalStore) (key j : Text) (have old : Option ℤ)
    → get_last_pushed_seq_opt db key ≡ have
    → (get_last_pushed_seq_opt (copied_seq have old key db) j
        ≡ (if text_eq key j then or_else have old else get_last_pushed_seq_opt db j))
      × ((k : Text) → get_last_cursor_opt (copied_seq have old key db) k ≡ get_last_cursor_opt db k)
unfolding copied_seq get_last_cursor_opt set_last_pushed_seq get_last_pushed_seq_opt
seq_copied db key j none (some c) e =
    (select_peer-upsert_peer key j c db.peer_push_state, λ k. refl)
seq_copied db key j none none e = (at_key (get_last_pushed_seq_opt db) key j none e, λ k. refl)
seq_copied db key j (some c) old e =
    (at_key (get_last_pushed_seq_opt db) key j (some c) e, λ k. refl)

-- The two cursors of a peer after its migration are those it had, and where it had none those under
-- its address; the cursors of all other peers stay.
pub migrate_cursors_lem :
    (db : LocalStore) (key old j : Text)
    → (get_last_cursor_opt (migrate_cursors db key old) j ≡ (
        if text_eq key j
        then or_else (get_last_cursor_opt db key) (get_last_cursor_opt db old)
        else get_last_cursor_opt db j))
      × (get_last_pushed_seq_opt (migrate_cursors db key old) j ≡ (
          if text_eq key j
          then or_else (get_last_pushed_seq_opt db key) (get_last_pushed_seq_opt db old)
          else get_last_pushed_seq_opt db j))
unfolding migrate_cursors
migrate_cursors_lem db key old j =
    let (cursor, seqs) =
      cursor_copied db key j (get_last_cursor_opt db key) (get_last_cursor_opt db old) refl in
    let (seq, cursors) =
      seq_copied (copied_cursor (get_last_cursor_opt db key) (get_last_cursor_opt db old) key db)
        key j _ _ refl in
    (cursors j ∙ cursor, seq ∙ rw (seqs key, seqs old, seqs j) refl)

-- The cursors of `db` stand in `db'`.
pub record IsKeeping (db db' : LocalStore) : Type 0 where
  pub cursors :
      (j : Text) (c : ℤ) → get_last_cursor_opt db j ≡ some c → get_last_cursor_opt db' j ≡ some c
  pub seqs :
      (j : Text) (c : ℤ)
      → get_last_pushed_seq_opt db j ≡ some c
      → get_last_pushed_seq_opt db' j ≡ some c

kept_value :
    (f : Text → Option ℤ) (key j : Text) (old v : Option ℤ) (c : ℤ)
    → v ≡ (if text_eq key j then or_else (f key) old else f j)
    → f j ≡ some c
    → v ≡ some c
kept_value f key j old v c e h = elim (Bool-cases (text_eq key j)) [
  | inl same ↦
      let there : f key ≡ some c = ap f ((text_eq_iff key j).0 same) ∙ h in
      e ∙ rw (same, there) refl
  | inr differs ↦ e ∙ rw differs h
]

migrate_cursors-IsKeeping :
    (db : LocalStore) (key old : Text) → IsKeeping db (migrate_cursors db key old)
migrate_cursors-IsKeeping db key old = record {
  cursors = λ j c h.
      kept_value (get_last_cursor_opt db) key j (get_last_cursor_opt db old) _ c
        (migrate_cursors_lem db key old j).0 h;
  seqs = λ j c h.
      kept_value (get_last_pushed_seq_opt db) key j (get_last_pushed_seq_opt db old) _ c
        (migrate_cursors_lem db key old j).1 h;
}

IsKeeping-refl : (db : LocalStore) → IsKeeping db db
IsKeeping-refl db = record { cursors = λ j c h. h; seqs = λ j c h. h }

IsKeeping-trans : (a b c : LocalStore) → IsKeeping a b → IsKeeping b c → IsKeeping a c
IsKeeping-trans a b c h k = record {
  cursors = λ j v e. k.cursors j v (h.cursors j v e);
  seqs = λ j v e. k.seqs j v (h.seqs j v e);
}

module _ ⦃text : AddrText⦄ ⦃json : AddrsJson⦄ (now : ℤ) where
  booked-IsKeeping :
      (db db' : LocalStore) (peer : PeerBookPeer)
      → IsKeeping db db'
      → IsKeeping db (upsert_peer_book db' peer)
  unfolding upsert_peer_book get_last_cursor_opt get_last_pushed_seq_opt
  booked-IsKeeping db db' peer h = record { cursors = h.cursors; seqs = h.seqs }

  manual_target-IsKeeping :
      (db : LocalStore) (relay_addr : Option Multiaddr) (old : Text)
      → IsKeeping db (manual_target now db relay_addr old).1
  unfolding manual_target noted_target
  manual_target-IsKeeping db relay_addr old = elim (Result-cases (split_peer_multiaddr old)) [
    | inl (split, e) ↦ rw e (
        booked-IsKeeping db (migrate_cursors db (text.show_peer_id split.0) old) _
          (migrate_cursors-IsKeeping db (text.show_peer_id split.0) old))
    | inr (error, e) ↦ rw e (IsKeeping-refl db)
  ]

  then_kept :
      {A B : Type 0} (db : LocalStore) (r : Stored A) (f : A → LocalStore → Stored B)
      → IsKeeping db r.1
      → ((a : A) (db' : LocalStore) → IsKeeping db' (f a db').1)
      → IsKeeping db (and_then r f).1
  then_kept db (ok a, db') f h k = IsKeeping-trans db db' (f a db').1 h (k a db')
  then_kept db (err e, db') f h k = h

  -- Whatever addresses are given, and also where one of them makes the choice of peers fail, every
  -- cursor that was there for any peer stands as it was.
  pub build_manual_targets-IsKeeping :
      (db : LocalStore) (peers : List Text) (relay_addr : Option Multiaddr)
      → IsKeeping db (build_manual_targets now db peers relay_addr).1
  unfolding build_manual_targets
  build_manual_targets-IsKeeping db [] relay_addr = IsKeeping-refl db
  build_manual_targets-IsKeeping db (peer_addr ∷ peers) relay_addr =
      elim (Bool-cases (is_empty (trim peer_addr))) [
        | inl blank ↦
            rw (build_manual_targets, blank) (build_manual_targets-IsKeeping db peers relay_addr)
        | inr given ↦
            rw (build_manual_targets, given)
              (then_kept db (manual_target now db relay_addr (trim peer_addr)) _
                (manual_target-IsKeeping db relay_addr (trim peer_addr))
                (λ target db'.
                  then_kept db' (build_manual_targets now db' peers relay_addr) _
                    (build_manual_targets-IsKeeping db' peers relay_addr)
                    (λ targets db''. IsKeeping-refl db'')))
      ]
