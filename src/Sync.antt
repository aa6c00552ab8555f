-- ===== src/Sync.antt =====
-- src/sync.rs: following a peer by pulls and by pushes.
pub mod Pull
pub mod Push
pub mod Peers
use rustory.Prelude.{
  ℕ, Bool, true, false, List, [], ◌∷◌, codes, leb, contains, if◌then◌else◌, ◌/◌, ◌==◌, ◌&&◌, ◌||◌,
  not,
}
use rustory.Errors.{Cause, http_status, http_transport, outbound, io, message, Error, Result}
use rustory.Storage.Schema.{LocalStore}

pub record PullStats : Type 0 where
  pub received : ℕ
  pub inserted : ℕ
  pub ignored : ℕ

pub record SyncRunProgress : Type 0 where
  pub pull_ok : Bool
  pub push_requested : Bool
  pub push_needed : Bool
  pub push_ok : Bool

unfoldable pub new_progress : Bool → SyncRunProgress
new_progress push_requested = record {
  pull_ok = false;
  push_requested = push_requested;
  push_needed = false;
  push_ok = false;
}

unfoldable pub mark_pull_ok : SyncRunProgress → SyncRunProgress
mark_pull_ok p = record p { pull_ok = true }

unfoldable pub note_push_needed : SyncRunProgress → Bool → SyncRunProgress
note_push_needed p needed = record p { push_needed = p.push_needed || needed }

unfoldable pub mark_push_ok : SyncRunProgress → Bool → SyncRunProgress
mark_push_ok p needed = if needed then record p { push_ok = true } else p

unfoldable pub is_success : SyncRunProgress → Bool
is_success p = p.pull_ok && (not p.push_requested || (not p.push_needed || p.push_ok))

-- The test of one cause; `none` where the search goes on to the next cause only if it is false.
unfoldable pub is_payload_cause : Cause → Bool
is_payload_cause (http_status code) = code == 413
is_payload_cause http_transport = false
is_payload_cause (outbound (io text)) = contains (codes "too large") text
is_payload_cause (outbound failure) = false
is_payload_cause (message text) =
    contains (codes "message too large") text
    || (contains (codes "request too large") text || contains (codes "payload too large") text)

unfoldable pub is_payload_too_large_error : Error → Bool
unfolding is_payload_cause
is_payload_too_large_error [] = false
is_payload_too_large_error (cause ∷ causes) =
    is_payload_cause cause || is_payload_too_large_error causes

-- (batch_limit / 2).max(1)
unfoldable pub halved : ℕ → ℕ
halved n = if leb 1 (n / 2) then n / 2 else 1

-- What a run leaves: the result, the local store and the far side's state.
pub record Run (R A : Type 0) : Type 0 where
  pub result : Result A
  pub local : LocalStore
  pub remote : R
