-- ===== src/Sync/Pull/Union.antt =====
-- src/sync.rs: a pull from the beginning, on the sets of entry ids.
use rustory.Prelude.{
  ℕ, ◌+◌, ◌<◌, ℤ, pos, Text, Bool, true, some, List, [], ◌∷◌, ◌++◌, ◌≡◌, ◌∙◌, refl, sym, ap, All,
  length, text_eq, text_eq_iff, ltb_ℤ, ◌||◌, arith, Bool-cases, inl, inr,
}
use mathlib.Core.Path.{subst}
use rustory.Core.{TimeApi}
use rustory.Storage.Schema.{Sqlite, Row, LocalStore}
use rustory.Storage.Entries.{has_id}
use rustory.Storage.Entries.Invariant.{IsWellFormed, Rising}
use rustory.Storage.Entries.Ids.{ids_of}
use rustory.Storage.Entries.Paging.{after}
use rustory.Storage.Peers.{get_last_cursor}
use rustory.Sync.{PullStats, Run}
use rustory.Sync.Pull.{PullFn, sync_pull_from_peer}
use rustory.Sync.Pull.NoGap.{IsGapless, IsEndOfFar}
use rustory.Sync.Pull.Complete.{IsOk, IsObliging, IsHonest-of_obliging, sync_pull_complete}
use rustory.Sync.Pull.Origin.{sync_pull-IsFromFar}

after_zero : (lo hi : ℕ) (rows : List Row) → Rising lo rows hi → after (pos 0) rows ≡ rows
after_zero lo hi [] r = refl
after_zero lo hi (x ∷ rows) r =
    let past : ltb_ℤ (pos 0) (pos x.ingest_seq) ≡ true = ground (arith, r.0) in
    rw past (ap (λ l. x ∷ l) (after_zero x.ingest_seq hi rows r.1))

stored_id :
    (id : Text) (rows store : List Row)
    → All (λ r. has_id r.entry_id store ≡ true) rows
    → has_id id rows ≡ true
    → has_id id store ≡ true
unfolding has_id
stored_id id [] store h k = absurd (cc)
stored_id id (r ∷ rows) store h k = elim (Bool-cases (text_eq r.entry_id id)) [
  | inl same ↦ ap (λ i. has_id i store) (sym ((text_eq_iff r.entry_id id).0 same)) ∙ h.0
  | inr differs ↦ stored_id id rows store h.1 (rw differs at k)
]

or_exact :
    (s a b : Bool)
    → (s ≡ true → (a || b) ≡ true)
    → (a ≡ true → s ≡ true)
    → (b ≡ true → s ≡ true)
    → s ≡ (a || b)
or_exact s a b h k l = ground arith

drop_nil : (xs ys : List Row) → ys ≡ [] → xs ++ ys ≡ xs
drop_nil [] ys h = h
drop_nil (x ∷ xs) ys h = ap (λ l. x ∷ l) (drop_nil xs ys h)

nothing_left :
    {R : Type 0} (peer_id : Text) (far : List Row) (start : ℤ) (run : Run R PullStats)
    (g : IsGapless peer_id far start run)
    → IsOk run.result
    → after (get_last_cursor run.local peer_id) far ≡ []
nothing_left peer_id far start run g (stats, fine) =
    (subst (IsEndOfFar far (get_last_cursor run.local peer_id) g.caught_up.done) fine g.end).0

-- A run that has ended well has the ids of the rows past the old cursor.
pulled_id :
    {R : Type 0} (peer_id : Text) (far : List Row) (start : ℤ) (run : Run R PullStats) (id : Text)
    → IsGapless peer_id far start run
    → IsOk run.result
    → has_id id (after start far) ≡ true
    → has_id id run.local.entries ≡ true
pulled_id peer_id far start run id g fine there =
    let all =
      g.caught_up.split ∙ drop_nil g.caught_up.done _ (nothing_left peer_id far start run g fine) in
    stored_id id g.caught_up.done run.local.entries g.caught_up.present
      (subst (λ l. has_id id l ≡ true) all there)

module _ {T R : Type 0} ⦃time : TimeApi T⦄ ⦃sql : Sqlite⦄ (peer_id : Text) (far : LocalStore)
    (w : IsWellFormed time far) where
  -- A pull from the beginning, from a far side that answers from a well-formed store and only refuses
  -- batches of two entries or more as too large, is the union of the two sets of entry ids: with more
  -- rounds than rows plus the limit it returns without an error, and has then just the ids that were
  -- there or are the far side's.
  pub sync_pull_union :
      (fuel : ℕ) (db : LocalStore) (limit : ℕ) (pull : PullFn T R) (remote : R)
      → get_last_cursor db peer_id ≡ pos 0
      → 0 < limit
      → IsObliging time far pull
      → length far.entries + limit < fuel
      → (run : Run R PullStats) × (sync_pull_from_peer fuel db peer_id limit pull remote ≡ some run)
        × IsOk run.result
        × ((id : Text) → ids_of run.local id ≡ (ids_of db id || ids_of far id))
  sync_pull_union fuel db limit pull remote new room obliging enough =
      let everything : after (get_last_cursor db peer_id) far.entries ≡ far.entries =
        ap (λ c. after c far.entries) new ∙ after_zero 0 far.entries_mark far.entries w.rising in
      let (run, returns, good, fine) =
        sync_pull_complete peer_id far w fuel db limit pull remote room obliging
          (omega (arith, enough, ap length everything)) in
      let from =
        sync_pull-IsFromFar peer_id db far w fuel limit pull remote run
          (IsHonest-of_obliging peer_id far w pull obliging) returns in
      (
        run,
        returns,
        fine,
        λ id.
            or_exact (ids_of run.local id) (ids_of db id) (ids_of far id) (from id).0 (from id).1
              (λ there.
                pulled_id peer_id far.entries (get_last_cursor db peer_id) run id good fine
                  (subst (λ l. has_id id l ≡ true) (sym everything) there)),
      )
