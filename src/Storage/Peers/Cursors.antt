-- ===== src/Storage/Peers/Cursors.antt =====
-- src/storage.rs: writing and reading the cursors of peers.
use rustory.Prelude.{
  ℤ, Text, some, List, [], ◌∷◌, ◌≡◌, refl, arith, text_eq, text_eq_iff, text_eq_refl, false,
  if◌then◌else◌,
}
use rustory.Storage.Schema.{LocalStore}
use rustory.Storage.Peers.{
  select_peer, upsert_peer, get_last_cursor, set_last_cursor, get_last_pushed_seq,
  set_last_pushed_seq,
}

pub select_peer-upsert_peer :
    (k j : Text) (v : ℤ) (rows : List (Text × ℤ))
    → select_peer j (upsert_peer k v rows) ≡ (if text_eq k j then some v else select_peer j rows)
unfolding select_peer upsert_peer
select_peer-upsert_peer k j v [] = refl
select_peer-upsert_peer k j v ((i, w) ∷ rows) =
    ground
      (arith, text_eq_iff k j, text_eq_iff i k, text_eq_iff i j, select_peer-upsert_peer k j v rows)

-- The pull cursor of a peer is the one set last for it, and setting it changes no push cursor and no
-- other peer's cursor.
pub get_last_cursor-set_last_cursor :
    (db : LocalStore) (k j : Text) (v : ℤ)
    → (get_last_cursor (set_last_cursor db k v) j
        ≡ (if text_eq k j then v else get_last_cursor db j))
      × (get_last_pushed_seq (set_last_cursor db k v) j ≡ get_last_pushed_seq db j)
unfolding get_last_cursor set_last_cursor get_last_pushed_seq
get_last_cursor-set_last_cursor db k j v =
    (ground (arith, select_peer-upsert_peer k j v db.peer_state), refl)

pub get_last_cursor-set_self :
    (db : LocalStore) (k : Text) (v : ℤ) → get_last_cursor (set_last_cursor db k v) k ≡ v
get_last_cursor-set_self db k v =
    ground (arith, (get_last_cursor-set_last_cursor db k k v).0, text_eq_refl k)

pub get_last_cursor-set_other :
    (db : LocalStore) (k j : Text) (v : ℤ)
    → text_eq k j ≡ false
    → get_last_cursor (set_last_cursor db k v) j ≡ get_last_cursor db j
get_last_cursor-set_other db k j v h = ground (arith, (get_last_cursor-set_last_cursor db k j v).0)

-- The same of the push cursor.
pub get_last_pushed_seq-set_last_pushed_seq :
    (db : LocalStore) (k j : Text) (v : ℤ)
    → (get_last_pushed_seq (set_last_pushed_seq db k v) j
        ≡ (if text_eq k j then v else get_last_pushed_seq db j))
      × (get_last_cursor (set_last_pushed_seq db k v) j ≡ get_last_cursor db j)
unfolding get_last_cursor set_last_pushed_seq get_last_pushed_seq
get_last_pushed_seq-set_last_pushed_seq db k j v =
    (ground (arith, select_peer-upsert_peer k j v db.peer_push_state), refl)

pub get_last_pushed_seq-set_self :
    (db : LocalStore) (k : Text) (v : ℤ) → get_last_pushed_seq (set_last_pushed_seq db k v) k ≡ v
get_last_pushed_seq-set_self db k v =
    ground (arith, (get_last_pushed_seq-set_last_pushed_seq db k k v).0, text_eq_refl k)

pub get_last_pushed_seq-set_other :
    (db : LocalStore) (k j : Text) (v : ℤ)
    → text_eq k j ≡ false
    → get_last_pushed_seq (set_last_pushed_seq db k v) j ≡ get_last_pushed_seq db j
get_last_pushed_seq-set_other db k j v h =
    ground (arith, (get_last_pushed_seq-set_last_pushed_seq db k j v).0)
