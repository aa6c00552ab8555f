-- ===== src/P2p/Client/Replies.antt =====
-- src/p2p.rs: what the client's attempts return.
use rustory.Prelude.{ℕ, zero, suc, ℤ, ◌+◌, ◌≡◌, leb, not, ◌||◌, Bool-cases, inl, inr}
use rustory.Errors.{Error, Result, ok, err}
use rustory.Core.{TimeApi}
use rustory.Storage.Schema.{LocalStore}
use rustory.Storage.Entries.{PullBatch, pull_since_cursor}
use rustory.P2p.Addrs.{PeerId}
use rustory.P2p.Client.{
  RequestRetryPolicy, Reply, response, failed, timed_out, Swarm, Requests, P2pClient,
  is_retryable_p2p_request_error, ensure_connected, connected, request_sync, answered_request,
  pull_batch_once, tried, retry_loop, pull_batch_with_retries,
}

module _ {S : Type 0} where
  tried_sound :
      {A : Type 0} (Q : A → Type 0) (attempts attempt : ℕ)
      (again : Error → P2pClient S → Result A × P2pClient S) (r : Result A × P2pClient S)
      → ((a : A) → r.0 ≡ ok a → Q a)
      → ((e : Error) (c : P2pClient S) (a : A) → (again e c).0 ≡ ok a → Q a)
      → (a : A) → (tried attempts attempt again r).0 ≡ ok a
      → Q a
  unfolding tried
  tried_sound Q attempts attempt again (ok b, c) now later a h = now a h
  tried_sound Q attempts attempt again (err e, c) now later a h =
      elim (Bool-cases (not (is_retryable_p2p_request_error e) || leb attempts (attempt + 1))) [
        | inl t ↦ absurd (cc (rw t at h))
        | inr f ↦ later e c a (rw f at h)
      ]

module _ {S : Type 0} ⦃net : Swarm S⦄ where
  -- What an attempt can return for a value is so of every value that the attempts return.
  retry_loop_sound :
      {A : Type 0} (Q : A → Type 0) (policy : RequestRetryPolicy)
      (once : P2pClient S → ℕ → Result A × P2pClient S)
      → ((c : P2pClient S) (timeout : ℕ) (a : A) → (once c timeout).0 ≡ ok a → Q a)
      → (left attempt : ℕ) (last_err : Error) (c : P2pClient S) (a : A)
      → (retry_loop policy once left attempt last_err c).0 ≡ ok a
      → Q a
  unfolding retry_loop
  retry_loop_sound Q policy once sound zero attempt last_err c a h = absurd (cc)
  retry_loop_sound Q policy once sound (suc left) attempt last_err c a h =
      tried_sound Q policy.attempts attempt _ _ (λ b e. sound _ _ b e)
        (λ e c' b k. retry_loop_sound Q policy once sound left (attempt + 1) e _ b k) a h

module _ {S : Type 0} where
  connected_sound :
      {A : Type 0} (Q : A → Type 0) (request : P2pClient S → Result A × P2pClient S)
      (r : Result (Unit {0}) × P2pClient S)
      → ((c : P2pClient S) (a : A) → (request c).0 ≡ ok a → Q a)
      → (a : A) → (connected request r).0 ≡ ok a
      → Q a
  unfolding connected
  connected_sound Q request (ok u, c) h a e = h c a e
  connected_sound Q request (err x, c) h a e = absurd (cc)

answered_sound : {A : Type 0} (r : Reply A) (a : A) → answered_request r ≡ ok a → r ≡ response a
unfolding answered_request
answered_sound (response b) a h = cc
answered_sound (failed e) a h = absurd (cc)
answered_sound timed_out a h = absurd (cc)

-- Every batch that a peer sends for a cursor and a limit is what its store returns for them.
abbrev pub IsServing :
    {T : Type 0} → (S : Type 0) → ⦃requests : Requests T S⦄ → TimeApi T → LocalStore → Type 0
IsServing {T} S ⦃requests⦄ time far =
    (swarm : S) (peer_id : PeerId) (cursor : ℤ) (limit timeout : ℕ) (batch : PullBatch T)
    → (requests.await_sync swarm peer_id cursor limit timeout).0 ≡ response batch
    → pull_since_cursor ⦃time = time⦄ far cursor limit ≡ ok batch

module _ {T S : Type 0} ⦃net : Swarm S⦄ ⦃requests : Requests T S⦄ where
  -- Every batch that a pull with retries returns is one that the peer's store returns.
  pub pull_batch_with_retries-answered :
      (time : TimeApi T) (far : LocalStore)
      → IsServing S time far
      → (c : P2pClient S) (cursor : ℤ) (limit : ℕ) (batch : PullBatch T)
      → (pull_batch_with_retries c cursor limit).0 ≡ ok batch
      → pull_since_cursor ⦃time = time⦄ far cursor limit ≡ ok batch
  unfolding pull_batch_with_retries pull_batch_once request_sync
  pull_batch_with_retries-answered time far serving c cursor limit batch h =
      retry_loop_sound (λ b. pull_since_cursor ⦃time = time⦄ far cursor limit ≡ ok b)
        c.request_retry_policy (pull_batch_once cursor limit)
        (λ c' timeout b e.
          connected_sound (λ b. pull_since_cursor ⦃time = time⦄ far cursor limit ≡ ok b)
            (request_sync cursor limit timeout) (ensure_connected c')
            (λ c'' b' e'.
              serving c''.swarm c''.peer_id cursor limit timeout b' (answered_sound _ b' e'))
            b e)
        c.request_retry_policy.attempts 0 _ c batch h
