-- ===== src/Sync/Pull/Origin.antt =====
-- src/sync.rs: where the rows come from that a pull run stores.
use rustory.Prelude.{
  ℕ, ℤ, Text, Bool, true, Option, none, some, List, [], ◌∷◌, ◌≡◌, ◌∙◌, refl, sym, ap, leb, leb_ℤ,
  ◌==◌, ◌||◌, Bool-cases, inl, inr, arith,
}
use mathlib.Core.Path.{subst}
use rustory.Errors.{Error, Result, ok, err, ok_injective}
use rustory.Core.{Entry, TimeApi}
use rustory.Loop.{Step, Keeps, Keeps-if, run_loop_partial}
use rustory.Storage.Schema.{Sqlite, LocalStore}
use rustory.Storage.Entries.{PullBatch, pull_since_cursor}
use rustory.Storage.Entries.Invariant.{IsWellFormed}
use rustory.Storage.Entries.Ids.{ids_of, batch_ids, insert_entries_union}
use rustory.Storage.Entries.PageIds.{has_id-page, batch_ids-entries_of}
use rustory.Storage.Entries.Paging.{page}
use rustory.Storage.Entries.Pull.{pull_since_cursor_lem}
use rustory.Storage.Peers.{set_last_cursor}
use rustory.Sync.{PullStats, Run, is_payload_too_large_error}
use rustory.Sync.Pull.{
  PullState, PullFn, pull_failed, pull_advance, pull_received, pull_answer, pull_step, pull_start,
  sync_pull_from_peer,
}
use rustory.Sync.Pull.NoGap.{IsHonest}

-- Every id of the store was there before or is one of the far side's, and none has gone.
abbrev pub IsFromFar : (before far store : LocalStore) → Type 0
IsFromFar before far store =
    (id : Text)
    → (ids_of store id ≡ true → (ids_of before id || ids_of far id) ≡ true)
      × (ids_of before id ≡ true → ids_of store id ≡ true)

module _ {R : Type 0} (db far : LocalStore) where
  abbrev FromFar : Step (PullState R) (Run R PullStats) → Type 0
  FromFar = Keeps (λ s. IsFromFar db far s.local) (λ run. IsFromFar db far run.local)

  failed_from : (s : PullState R) (e : Error) → IsFromFar db far s.local → FromFar (pull_failed s e)
  unfolding pull_failed
  failed_from s e h =
      Keeps-if (λ s. IsFromFar db far s.local) (λ run. IsFromFar db far run.local)
        (is_payload_too_large_error e) _ _
        (λ large.
          Keeps-if (λ s. IsFromFar db far s.local) (λ run. IsFromFar db far run.local)
            (leb s.batch_limit 1) _ _ (λ t. h) (λ f. h))
        (λ other. h)

  advance_from :
      (peer_id : Text) (s : PullState R) (c : Option ℤ)
      → IsFromFar db far s.local
      → FromFar (pull_advance peer_id s c)
  unfolding pull_advance set_last_cursor
  advance_from peer_id s none h = h
  advance_from peer_id s (some c) h =
      Keeps-if (λ s. IsFromFar db far s.local) (λ run. IsFromFar db far run.local)
        (leb_ℤ c s.cursor) _ _ (λ t. h) (λ f. h)

or_left : (a b : Bool) → a ≡ true → (a || b) ≡ true
or_left a b h = ground arith

from_either :
    (a b c d : Bool)
    → (a || b) ≡ true
    → (a ≡ true → (c || d) ≡ true)
    → (b ≡ true → d ≡ true)
    → (c || d) ≡ true
from_either a b c d h k l = ground arith

from_start : (db far : LocalStore) → IsFromFar db far db
from_start db far id = (λ there. or_left _ _ there, λ there. there)

module _ {T R : Type 0} ⦃time : TimeApi T⦄ ⦃sql : Sqlite⦄ (peer_id : Text) (db far : LocalStore)
    (w : IsWellFormed time far) where
  received_from :
      (s : PullState R) (es : List (Entry T)) (c : Option ℤ)
      → IsFromFar db far s.local
      → ((id : Text) → batch_ids es id ≡ true → ids_of far id ≡ true)
      → FromFar db far (pull_received peer_id s es c)
  unfolding pull_received
  received_from s [] c h k = h
  received_from s (e ∷ es) c h k = advance_from db far peer_id _ c (λ id. (
    λ there.
        from_either (ids_of s.local id) (batch_ids (e ∷ es) id) (ids_of db id) (ids_of far id)
          (sym (insert_entries_union s.local (e ∷ es) [] id).0 ∙ there) (h id).0 (k id),
    λ old. (insert_entries_union s.local (e ∷ es) [] id).0 ∙ or_left _ _ ((h id).1 old),
  ))

  answer_from :
      (s : PullState R) (a : Result (PullBatch T))
      → IsFromFar db far s.local
      → ((batch : PullBatch T)
          → a ≡ ok batch
          → pull_since_cursor far s.cursor s.batch_limit ≡ ok batch)
      → FromFar db far (pull_answer peer_id s a)
  unfolding pull_answer
  answer_from s (err e) h honest = failed_from db far s e h
  answer_from s (ok batch) h honest =
      let rows = page s.cursor s.batch_limit far.entries in
      let read =
        ap (λ (b : PullBatch T). b.entries)
          (ok_injective
            (sym (honest batch refl) ∙ pull_since_cursor_lem far s.cursor s.batch_limit w)) in
      received_from s batch.entries batch.next_cursor h (λ id there.
        has_id-page id s.cursor s.batch_limit far.entries
          (batch_ids-entries_of time id rows (subst (λ es. batch_ids es id ≡ true) read there)))

  -- However a pull run ends, it stores nothing that the far side does not have and loses nothing:
  -- every entry id in the store was there before or is one of the far side's, and none has gone.
  pub sync_pull-IsFromFar :
      (fuel limit : ℕ) (pull : PullFn T R) (remote : R) (run : Run R PullStats)
      → IsHonest time far pull
      → sync_pull_from_peer fuel db peer_id limit pull remote ≡ some run
      → IsFromFar db far run.local
  unfolding sync_pull_from_peer pull_step
  sync_pull-IsFromFar fuel limit pull remote run honest e = elim (Bool-cases (limit == 0)) [
    | inl nothing ↦
        let same : db ≡ run.local = ap local_of (rw nothing at e) in
        subst (IsFromFar db far) same (from_start db far)
    | inr some_limit ↦
        run_loop_partial (λ (s : PullState R). IsFromFar db far s.local)
          (λ (r : Run R PullStats). IsFromFar db far r.local) (pull_step pull peer_id)
          (λ s h.
            answer_from _ (pull s.remote s.cursor s.batch_limit).0 h
              (honest s.remote s.cursor s.batch_limit))
          fuel (pull_start db peer_id limit remote) run (from_start db far) (rw some_limit at e)
  ]
    where
      local_of : Option (Run R PullStats) → LocalStore
      local_of none = db
      local_of (some r) = r.local
