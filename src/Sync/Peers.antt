-- ===== src/Sync/Peers.antt =====
-- src/sync.rs: the variables of a run over several peers, which src/transport.rs and src/p2p.rs
-- share, with the outcomes for the single peers that such a run prints.
pub mod Verdict
use rustory.Prelude.{
  ℕ, Text, Bool, true, false, Option, none, some, List, [], ◌∷◌, ◌≡◌, refl, ltb, any_of, not, ◌&&◌,
  ◌||◌, if◌then◌else◌, arith, inl, inr, length, suc, Bool-cases, ◌∙◌, ap,
}
use rustory.Errors.{Error, Result, ok, err, message}
use rustory.Storage.Schema.{LocalStore}
use rustory.Sync.{
  PullStats, SyncRunProgress, new_progress, mark_pull_ok, note_push_needed, mark_push_ok,
  is_success,
}

-- A push: what was pending before it, and what it returned.
pub record Pushing : Type 0 where
  pub pending : ℕ
  pub pushed : Result ℕ

-- One peer: the pull, and the push with its preflight where there was one.
pub record PeerOutcome : Type 0 where
  pub pull : Result PullStats
  pub push : Option (Result Pushing)

-- The variables of the loop over the peers; the outcome of the last peer stands first.
pub record SyncState (R : Type 0) : Type 0 where
  pub local : LocalStore
  pub remote : R
  pub progress : SyncRunProgress
  pub last_err : Option Error
  pub outcomes : List PeerOutcome

-- What the run leaves.
pub record SyncRun (R : Type 0) : Type 0 where
  pub result : Result (Unit {0})
  pub local : LocalStore
  pub remote : R
  pub outcomes : List PeerOutcome

abbrev pub is_ok : {A : Type 0} → Result A → Bool
is_ok (ok a) = true
is_ok (err e) = false

-- `.with_context(…)` of a result.
abbrev pub with_context : {A : Type 0} → Text → Result A → Result A
with_context what (ok a) = ok a
with_context what (err e) = err (message what ∷ e)

module _ {R : Type 0} where
  unfoldable pub sync_start : Bool → LocalStore → R → SyncState R
  sync_start push local remote = record {
    local = local;
    remote = remote;
    progress = new_progress push;
    last_err = none;
    outcomes = [];
  }

  unfoldable pub after_pull : Result PullStats → SyncState R → SyncState R
  after_pull (ok stats) s = record s { progress = mark_pull_ok s.progress }
  after_pull (err e) s = record s { last_err = some e }

  unfoldable pub push_noted : ℕ → SyncState R → SyncState R
  push_noted pending s = record s { progress = note_push_needed s.progress (ltb 0 pending) }

  unfoldable pub after_push : Bool → Result ℕ → SyncState R → SyncState R
  after_push push_needed (ok pushed) s = record s { progress = mark_push_ok s.progress push_needed }
  after_push push_needed (err e) s = record s { last_err = some e }

  abbrev pub observed : PeerOutcome → SyncState R → SyncState R
  observed o s = record s { outcomes = o ∷ s.outcomes }

  unfoldable pub sync_result : Text → SyncState R → SyncRun R
  sync_result what s = record {
    result =
        if is_success s.progress
        then ok tt
        else err (elim s.last_err [ none ↦ message what ∷ [] | some e ↦ e ]);
    local = s.local;
    remote = s.remote;
    outcomes = s.outcomes;
  }

-- `for peer in peers`; `none` where a loop within runs out of fuel.
unfoldable pub each_peer :
    {A R : Type 0}
    → (SyncState R → A → Option (SyncState R))
    → List A
    → SyncState R
    → Option (SyncState R)
each_peer visit [] s = some s
each_peer visit (peer ∷ peers) s = elim (visit s peer) [
  | none ↦ none
  | some s' ↦ each_peer visit peers s'
]
