-- ===== src/Tests/P2p.antt =====
-- The theorems on the sync over libp2p, applied.
use rustory.Prelude.{
  ℕ, zero, suc, ℤ, pos, Text, codes, true, false, none, some, List, [], ◌∷◌, ◌≡◌, refl, ap, arith,
  length, text_eq, All, sort_by, insert_by,
}
use rustory.Errors.{Result, ok, err, anyhow}
use rustory.Storage.Entries.Invariant.{IsWellFormed-IsOrdered}
use rustory.Storage.Schema.{AddrsJson, LocalStore}
use rustory.Storage.Entries.{PullBatch, pull_since_cursor}
use rustory.P2p.Addrs.{
  PeerId, Protocol, ip4, ip6, p2p, p2p_circuit, other, Multiaddr, AddrText, ensure_p2p_suffix,
  split_peer_multiaddr, pop, without_suffix, direct_candidate_addrs_from_tracker,
}
use rustory.P2p.Addrs.Split.{split_peer_multiaddr-ensure_p2p_suffix}
use rustory.P2p.Addrs.Candidates.{IsDialable, IsFresh, direct_candidate_addrs-IsFresh}
use rustory.Loop.{run_loop, resume}
use rustory.Storage.Entries.{
  insert_entries_with_stats, insert_loop, insert_or_ignore, entry_row, has_id,
}
use rustory.Storage.Peers.{get_last_cursor, set_last_cursor, select_peer, upsert_peer}
use rustory.Sync.{Run, PullStats}
use rustory.Sync.Pull.{pull_step, sync_pull_from_peer_async}
use rustory.Sync.Pull.NoGap.{IsGapless}
use rustory.P2p.Client.{
  Swarm, Requests, Reply, response, timed_out, P2pClient, default_policy, ensure_connected,
  pull_batch_once, pull_batch_with_retries,
}
use rustory.P2p.Client.Replies.{IsServing}
use rustory.P2p.Pulled.{p2p_pull-IsGapless}
use rustory.Storage.Entries.Extended.{IsExtended-refl}
use rustory.Sync.Peers.{SyncRun, each_peer}
use rustory.Sync.Peers.Verdict.{IsVerdict}
use rustory.P2p.Targets.{SyncTarget, build_manual_targets}
use rustory.P2p.Targets.Manual.{IsKeeping, build_manual_targets-IsKeeping}
use rustory.P2p.Run.{NewSwarm, new_client, sync_target, sync_targets, sync_targets-IsVerdict}
use rustory.P2p.Serve.{
  ServeEvent, tick, new_listen_addr, external_addr_confirmed, push_request, sync_request,
  ServeState, IsServer, IsRunning, serve_events, serve_events-IsRunning,
}
use rustory.Tests.{
  seconds, counting, three, empty, far, far-IsWellFormed, empty-IsWellFormed, three-IsAccepted,
}
use rustory.Tests.Wire.{Format, number, via, both, many, whole}

abbrev of_protocol : Protocol → ℕ × Text
of_protocol (ip4 a) = (0, a ∷ [])
of_protocol (ip6 a) = (1, a ∷ [])
of_protocol (p2p id) = (2, id)
of_protocol p2p_circuit = (3, [])
of_protocol (other t) = (4, t)

abbrev first_of : Text → ℕ
first_of [] = 0
first_of (a ∷ t) = a

abbrev to_protocol : ℕ × Text → Protocol
to_protocol (zero, t) = ip4 (first_of t)
to_protocol (suc zero, t) = ip6 (first_of t)
to_protocol (suc (suc zero), t) = p2p t
to_protocol (suc (suc (suc zero)), t) = p2p_circuit
to_protocol (suc (suc (suc (suc _))), t) = other t

to_protocol-of_protocol : (p : Protocol) → to_protocol (of_protocol p) ≡ p
to_protocol-of_protocol (ip4 a) = refl
to_protocol-of_protocol (ip6 a) = refl
to_protocol-of_protocol (p2p id) = refl
to_protocol-of_protocol p2p_circuit = refl
to_protocol-of_protocol (other t) = refl

abbrev multiaddrs : Format Multiaddr
multiaddrs = many (via (both number (many number)) of_protocol to_protocol to_protocol-of_protocol)

instance abbrev addr_text : AddrText
addr_text = record {
  parse_addr = λ t. whole (multiaddrs.read t);
  show_addr = λ a. multiaddrs.write a [];
  parse_addr-show_addr = λ a. ap whole (multiaddrs.read-write a []);
  parse_peer_id = some;
  show_peer_id = λ p. p;
  parse_peer_id-show_peer_id = λ p. refl;
}

abbrev alice : PeerId
alice = codes "alice"

abbrev direct : Multiaddr
direct = ip4 7 ∷ other (codes "tcp/1") ∷ p2p (codes "bob") ∷ []

split_peer_multiaddr-ensure_p2p_suffix_example :
    split_peer_multiaddr (addr_text.show_addr (ensure_p2p_suffix direct alice))
    ≡ ok (alice, ip4 7 ∷ other (codes "tcp/1") ∷ [])
unfolding pop without_suffix
split_peer_multiaddr-ensure_p2p_suffix_example = split_peer_multiaddr-ensure_p2p_suffix direct alice

abbrev raws : List Text
raws =
    addr_text.show_addr direct
    ∷ codes "x"
    ∷ addr_text.show_addr (ip4 0 ∷ [])
    ∷ addr_text.show_addr (ip4 7 ∷ p2p_circuit ∷ [])
    ∷ addr_text.show_addr direct
    ∷ []

one_candidate : direct_candidate_addrs_from_tracker raws ≡ (ip4 7 ∷ other (codes "tcp/1") ∷ []) ∷ []
unfolding direct_candidate_addrs_from_tracker text_eq
one_candidate = refl

direct_candidate_addrs-IsFresh_example :
    All (IsDialable raws) (direct_candidate_addrs_from_tracker raws)
    × IsFresh [] (direct_candidate_addrs_from_tracker raws)
direct_candidate_addrs-IsFresh_example = direct_candidate_addrs-IsFresh raws

-- A far side that is always connected and answers from `far`.
abbrev as_reply : Result (PullBatch ℤ) → Reply (PullBatch ℤ)
as_reply (ok batch) = response batch
as_reply (err e) = timed_out

instance abbrev connected : Swarm Unit
connected = record {
  is_connected = λ s peer_id. true;
  await_dial = λ s peer_id addrs time. (ok tt, s);
  disconnect = λ s peer_id. s;
  sleep = λ time s. s;
}

instance abbrev answering : Requests ℤ Unit
answering = record {
  await_sync = λ s peer_id cursor limit time. (as_reply (pull_since_cursor far cursor limit), s);
  await_push = λ s peer_id entries time. (timed_out, s);
}

abbrev client : P2pClient Unit
client = record {
  peer_id = alice;
  direct_addrs = [];
  relay_addr = none;
  request_retry_policy = default_policy;
  push_ack_stats_known = false;
  push_ack_inserted_total = 0;
  push_ack_ignored_total = 0;
  swarm = tt;
}

as_reply-response :
    (r : Result (PullBatch ℤ)) (b : PullBatch ℤ) → as_reply r ≡ response b → r ≡ ok b
as_reply-response (ok a) b h = cc
as_reply-response (err e) b h = absurd (cc)

far-IsServing : IsServing Unit seconds far
far-IsServing swarm peer_id cursor limit time batch h = as_reply-response _ batch h

-- The pull stores three entries.
p2p_run :
    (run : Run (P2pClient Unit) PullStats) × (sync_pull_from_peer_async {T = ℤ} 9 empty alice 2
        pull_batch_with_retries client
      ≡ some run)
unfolding sync_pull_from_peer_async run_loop resume pull_step pull_batch_with_retries
    pull_batch_once ensure_connected pull_since_cursor insert_entries_with_stats insert_loop
    insert_or_ignore entry_row has_id text_eq set_last_cursor get_last_cursor select_peer
    upsert_peer sort_by insert_by
p2p_run = (_, refl)

p2p_pull-IsGapless_example : IsGapless alice far.entries (get_last_cursor empty alice) p2p_run.0
p2p_pull-IsGapless_example =
    p2p_pull-IsGapless far 9 empty alice 2 client p2p_run.0 far-IsWellFormed far-IsServing
      (omega arith) p2p_run.1

-- The address list of a peer, as texts that are read back.
abbrev lists : Format (List Text)
lists = many (many number)

instance abbrev addrs_json : AddrsJson
addrs_json = record {
  to_string = λ a. lists.write a [];
  from_str = λ t. whole (lists.read t);
  from_str-to_string = λ a. ap whole (lists.read-write a []);
}

-- A store that knows the peer by its address.
abbrev moved : LocalStore
moved = record empty {
  peer_state = (addr_text.show_addr direct, pos 5) ∷ (codes "bob", pos 7) ∷ [];
}

build_manual_targets-IsKeeping_example :
    IsKeeping moved
      (build_manual_targets (pos 9) moved (addr_text.show_addr direct ∷ codes "x" ∷ []) none).1
build_manual_targets-IsKeeping_example =
    build_manual_targets-IsKeeping (pos 9) moved (addr_text.show_addr direct ∷ codes "x" ∷ []) none

-- No swarm can be made.
instance abbrev no_swarm : NewSwarm Unit
no_swarm = record { new_swarm = λ s. err (anyhow "listen_on ephemeral") }

abbrev target : SyncTarget
target = record { peer_id = alice; peer_key = alice; direct_addrs = []; relay_addr = none }

failed_run :
    (run : SyncRun Unit) × (sync_targets ℤ 3 2 default_policy true
        (some alice)
        tt
        (ok (target ∷ target ∷ []), empty)
      ≡ some run)
unfolding sync_targets sync_target new_client each_peer
failed_run = (_, refl)

sync_targets-IsVerdict_example : IsVerdict failed_run.0 × (length failed_run.0.outcomes ≡ 2)
sync_targets-IsVerdict_example =
    sync_targets-IsVerdict ℤ 3 2 default_policy true (some alice) tt target (target ∷ []) empty
      failed_run.0 (λ t n. absurd (cc)) failed_run.1

abbrev at_start : ServeState ℤ
at_start = record { store = empty; known_addrs = []; registered = []; sent = [] }

at_start-IsServer : IsServer seconds empty at_start
at_start-IsServer = record {
  extended = IsExtended-refl empty (IsWellFormed-IsOrdered seconds empty empty-IsWellFormed);
  readable = tt;
  distinct = tt;
  listed = tt;
}

abbrev events : List (ServeEvent ℤ)
events =
    tick
    ∷ new_listen_addr direct
    ∷ external_addr_confirmed direct
    ∷ push_request three
    ∷ sync_request (pos 0) 2
    ∷ tick
    ∷ []

serve_events-IsRunning_example :
    IsRunning alice true empty (serve_events {T = ℤ} alice true events at_start)
serve_events-IsRunning_example =
    serve_events-IsRunning alice true empty events at_start at_start-IsServer
      (tt, (tt, (tt, (three-IsAccepted, (tt, (tt, tt))))))
