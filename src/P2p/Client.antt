-- ===== src/P2p/Client.antt =====
-- src/p2p.rs: the client of one peer, its connections, retries and acknowledgements. The swarm and the
-- network are a function on a state of their own, on which time passes.
pub mod Replies
use rustory.Prelude.{
  ℕ, zero, suc, ◌+◌, ℤ, Text, Bool, true, false, Option, none, some, List, [], ◌∷◌, length,
  is_empty, any_of, ltb, leb, not, ◌==◌, ◌&&◌, ◌||◌, if◌then◌else◌, codes, starts_with,
}
use rustory.Errors.{
  OutboundFailure, dial_failure, request_timeout, connection_closed, unsupported_protocols, io,
  Cause, message, outbound, http_status, http_transport, Error, Result, ok, err, anyhow, ◌>>=◌,
}
use rustory.Core.{Entry}
use rustory.HttpRetry.{exp_duration, as_u32, millis, secs}
use rustory.Storage.Entries.{PullBatch}
use rustory.Sync.{is_payload_too_large_error}
use rustory.Sync.Pull.{PullFn}
use rustory.Sync.Push.{PushFn}
use rustory.P2p.Addrs.{PeerId, Multiaddr, p2p_circuit, push}

pub record RequestRetryPolicy : Type 0 where
  pub attempts : ℕ
  pub timeout_base : ℕ
  pub timeout_cap : ℕ
  pub backoff_base : ℕ

abbrev pub default_policy : RequestRetryPolicy
default_policy = record {
  attempts = 3;
  timeout_base = secs 5;
  timeout_cap = secs 30;
  backoff_base = millis 200;
}

pub record PushAck : Type 0 where
  pub is_ok : Bool
  pub inserted : Option ℕ
  pub ignored : Option ℕ

-- The first event that answers a request, or the end of its time.
pub data Reply (A : Type 0) : Type 0 where
  response : A → Reply A
  failed : OutboundFailure → Reply A
  timed_out : Reply A

-- The swarm of a client: its calls, and what is awaited on it under a timeout. `await_dial` dials and
-- waits for the connection.
pub record Swarm (S : Type 0) : Type 0 where
  pub is_connected : S → PeerId → Bool
  pub await_dial : S → PeerId → List Multiaddr → ℕ → Result (Unit {0}) × S
  pub disconnect : S → PeerId → S
  pub sleep : ℕ → S → S

-- A request to a peer that is connected.
pub record Requests (T S : Type 0) : Type 0 where
  pub await_sync : S → PeerId → ℤ → ℕ → ℕ → Reply (PullBatch T) × S
  pub await_push : S → PeerId → List (Entry T) → ℕ → Reply PushAck × S

pub record P2pClient (S : Type 0) : Type 0 where
  pub peer_id : PeerId
  pub direct_addrs : List Multiaddr
  pub relay_addr : Option Multiaddr
  pub request_retry_policy : RequestRetryPolicy
  pub push_ack_stats_known : Bool
  pub push_ack_inserted_total : ℕ
  pub push_ack_ignored_total : ℕ
  pub swarm : S

abbrev is_timeout_text : Cause → Bool
is_timeout_text (message text) = starts_with (codes "p2p request timeout after") text
is_timeout_text cause = false

retryable_failure : OutboundFailure → Bool
retryable_failure unsupported_protocols = false
retryable_failure dial_failure = true
retryable_failure request_timeout = true
retryable_failure connection_closed = true
retryable_failure (io text) = true

first_failure : Error → Bool
first_failure [] = false
first_failure (outbound failure ∷ causes) = retryable_failure failure
first_failure (cause ∷ causes) = first_failure causes

unfoldable pub is_retryable_p2p_request_error : Error → Bool
unfolding first_failure retryable_failure
is_retryable_p2p_request_error e =
    if is_payload_too_large_error e
    then false
    else if any_of is_timeout_text e
    then true
    else first_failure e

module _ {S : Type 0} where
  unfoldable pub reset_push_ack_stats : P2pClient S → P2pClient S
  reset_push_ack_stats c = record c {
    push_ack_stats_known = false;
    push_ack_inserted_total = 0;
    push_ack_ignored_total = 0;
  }

  unfoldable pub take_push_ack_stats : P2pClient S → Option (ℕ × ℕ) × P2pClient S
  unfolding reset_push_ack_stats
  take_push_ack_stats c =
      if not c.push_ack_stats_known
      then (none, c)
      else (some (c.push_ack_inserted_total, c.push_ack_ignored_total), reset_push_ack_stats c)

  -- The totals after an acknowledgement that has both numbers.
  unfoldable pub note_push_ack : P2pClient S → Option ℕ → Option ℕ → P2pClient S
  note_push_ack c (some inserted) (some ignored) = record c {
    push_ack_stats_known = true;
    push_ack_inserted_total = c.push_ack_inserted_total + inserted;
    push_ack_ignored_total = c.push_ack_ignored_total + ignored;
  }
  note_push_ack c inserted ignored = c

  dialled :
      (Error → P2pClient S → Result (Unit {0}) × P2pClient S)
      → Result (Unit {0}) × P2pClient S
      → Result (Unit {0}) × P2pClient S
  dialled again (ok u, c) = (ok tt, c)
  dialled again (err e, c) = again e c

  connected :
      {A : Type 0}
      → (P2pClient S → Result A × P2pClient S)
      → Result (Unit {0}) × P2pClient S
      → Result A × P2pClient S
  connected request (ok u, c) = request c
  connected request (err e, c) = (err e, c)

  acknowledged : P2pClient S → Result PushAck → Result (Unit {0}) × P2pClient S
  acknowledged c (err e) = (err e, c)
  acknowledged c (ok ack) =
      if ack.is_ok
      then (ok tt, note_push_ack c ack.inserted ack.ignored)
      else (err (anyhow "p2p push rejected"), c)

  tried :
      {A : Type 0}
      → ℕ
      → ℕ
      → (Error → P2pClient S → Result A × P2pClient S)
      → Result A × P2pClient S
      → Result A × P2pClient S
  tried attempts attempt again (ok a, c) = (ok a, c)
  tried attempts attempt again (err e, c) =
      let rest = again e c in
      if not (is_retryable_p2p_request_error e) || leb attempts (attempt + 1)
      then (err e, c)
      else rest

answered_request : {A : Type 0} → Reply A → Result A
answered_request (response a) = ok a
answered_request (failed e) = err (message (codes "p2p outbound request failed") ∷ outbound e ∷ [])
answered_request timed_out = err (anyhow "p2p request timeout after")

module _ {S : Type 0} ⦃net : Swarm S⦄ where
  unfoldable pub dial_once : P2pClient S → List Multiaddr → ℕ → Result (Unit {0}) × P2pClient S
  dial_once c addrs timeout =
      let (r, swarm) = net.await_dial c.swarm c.peer_id addrs timeout in
      if net.is_connected c.swarm c.peer_id then (ok tt, c) else (r, record c { swarm = swarm })

  -- for attempt in 0..ATTEMPTS, with the rounds left.
  dial_loop :
      ℕ → ℕ → List Multiaddr → ℕ → Option ℕ → Error → P2pClient S → Result (Unit {0}) × P2pClient S
  dial_loop zero attempt addrs base_timeout timeout_cap last_err c = (err last_err, c)
  dial_loop (suc left) attempt addrs base_timeout timeout_cap last_err c =
      dialled
        (λ e c'. dial_loop left (attempt + 1) addrs base_timeout timeout_cap e (
          if ltb (attempt + 1) 3
          then record c' { swarm = net.sleep (exp_duration (millis 200) attempt none) c'.swarm }
          else c'))
        (dial_once c addrs (exp_duration base_timeout attempt timeout_cap))

  unfoldable pub dial_with_retries :
      P2pClient S → List Multiaddr → ℕ → Option ℕ → Result (Unit {0}) × P2pClient S
  unfolding dial_loop dialled dial_once
  dial_with_retries c addrs base_timeout timeout_cap =
      dial_loop 3 0 addrs base_timeout timeout_cap (anyhow "dial failed") c

  dial_relay : Option Multiaddr → P2pClient S → Result (Unit {0}) × P2pClient S
  dial_relay none c = (err (anyhow "dial failed: no relay addr and direct dial failed"), c)
  dial_relay (some relay_addr) c =
      dial_with_retries c (push relay_addr p2p_circuit ∷ []) (secs 10) (some (secs 30))

  unfoldable pub ensure_connected : P2pClient S → Result (Unit {0}) × P2pClient S
  unfolding dial_with_retries dial_relay dialled
  ensure_connected c =
      let relayed = dial_relay c.relay_addr in
      if net.is_connected c.swarm c.peer_id
      then (ok tt, c)
      else if is_empty c.direct_addrs
      then relayed c
      else dialled (λ e. relayed) (dial_with_retries c c.direct_addrs (secs 3) none)

  -- What is done once a peer is connected.

  -- The client before its next attempt: disconnected, and after the pause if there is one.
  paused : ℕ → P2pClient S → P2pClient S
  paused backoff c =
      let left = net.disconnect c.swarm c.peer_id in
      record c { swarm = if ltb 0 backoff then net.sleep backoff left else left }

  -- for attempt in 0..attempts, with the rounds left.
  retry_loop :
      {A : Type 0}
      → RequestRetryPolicy
      → (P2pClient S → ℕ → Result A × P2pClient S)
      → ℕ
      → ℕ
      → Error
      → P2pClient S
      → Result A × P2pClient S
  retry_loop policy once zero attempt last_err c = (err last_err, c)
  retry_loop policy once (suc left) attempt last_err c =
      tried policy.attempts attempt
        (λ e c'.
          retry_loop policy once left (attempt + 1) e
            (paused (exp_duration policy.backoff_base (as_u32 attempt) none) c'))
        (once c (exp_duration policy.timeout_base (as_u32 attempt) (some policy.timeout_cap)))

module _ {T S : Type 0} ⦃net : Swarm S⦄ ⦃requests : Requests T S⦄ where
  request_sync : ℤ → ℕ → ℕ → P2pClient S → Result (PullBatch T) × P2pClient S
  request_sync cursor limit timeout c =
      let (reply, swarm) = requests.await_sync c.swarm c.peer_id cursor limit timeout in
      (answered_request reply, record c { swarm = swarm })

  unfoldable pub pull_batch_once : ℤ → ℕ → P2pClient S → ℕ → Result (PullBatch T) × P2pClient S
  unfolding ensure_connected connected request_sync answered_request
  pull_batch_once cursor limit c timeout =
      connected (request_sync cursor limit timeout) (ensure_connected c)

  request_push : List (Entry T) → ℕ → P2pClient S → Result (Unit {0}) × P2pClient S
  request_push entries timeout c =
      let (reply, swarm) = requests.await_push c.swarm c.peer_id entries timeout in
      acknowledged (record c { swarm = swarm }) (answered_request reply)

  unfoldable pub push_batch_once :
      List (Entry T) → P2pClient S → ℕ → Result (Unit {0}) × P2pClient S
  unfolding ensure_connected connected request_push acknowledged answered_request note_push_ack
  push_batch_once entries c timeout = connected (request_push entries timeout) (ensure_connected c)

  unfoldable pub pull_batch_with_retries : PullFn T (P2pClient S)
  unfolding retry_loop tried paused pull_batch_once
  pull_batch_with_retries c cursor limit =
      retry_loop c.request_retry_policy (pull_batch_once cursor limit)
        c.request_retry_policy.attempts 0 (anyhow "p2p pull failed") c

  unfoldable pub push_batch_with_retries : PushFn T (P2pClient S)
  unfolding retry_loop tried paused push_batch_once
  push_batch_with_retries c entries =
      if is_empty entries
      then (ok tt, c)
      else retry_loop c.request_retry_policy (push_batch_once entries)
          c.request_retry_policy.attempts 0 (anyhow "p2p push failed") c
