-- ===== src/P2p/Run.antt =====
-- src/p2p.rs: `sync_async`, the run over the peers.
use mathlib.Core.Path.{subst}
use mathlib.Core.Option as Opt
use rustory.Prelude.{
  ℕ, suc, ℤ, Text, codes, Bool, true, false, Option, none, some, List, [], ◌∷◌, ◌++◌, ◌≡◌, ◌≢◌,
  refl, ltb, is_empty, length, ◌==◌, if◌then◌else◌, Option-cases, inl, inr,
}
use rustory.Errors.{Result, ok, err, anyhow, Result-cases}
use rustory.Core.{TimeApi}
use rustory.Storage.Schema.{Sqlite, AddrsJson, LocalStore}
use rustory.Storage.Prune.{count_pending_push_entries}
use rustory.Sync.{PullStats, Run}
use rustory.Sync.Pull.{sync_pull_from_peer_async}
use rustory.Sync.Push.{sync_push_to_peer_async}
use rustory.Sync.Peers.{
  SyncState, SyncRun, with_context, sync_start, after_pull, push_noted, after_push, observed,
  each_peer, sync_result,
}
use rustory.Sync.Peers.Verdict.{
  IsTracked, moved-IsTracked, pulled-IsTracked, pushed-IsTracked, IsVerdict, Leaves,
  each_peer-IsVerdict,
}
use rustory.Tracker.{PeerInfo}
use rustory.P2p.Addrs.{AddrText}
use rustory.P2p.Client.{
  RequestRetryPolicy, Swarm, Requests, P2pClient, reset_push_ack_stats, pull_batch_with_retries,
  push_batch_with_retries,
}
use rustory.P2p.Targets.{SyncTarget, SyncConfig, Stored, build_manual_targets, discover_targets}

-- `build_rustory_swarm` and `listen_on`: a swarm of its own for a client.
pub record NewSwarm (S : Type 0) : Type 0 where
  pub new_swarm : S → Result S

module _ {S : Type 0} ⦃start : NewSwarm S⦄ where
  made_client : RequestRetryPolicy → SyncTarget → S → S → P2pClient S
  made_client policy t world swarm = record {
    peer_id = t.peer_id;
    direct_addrs = t.direct_addrs;
    relay_addr = t.relay_addr;
    request_retry_policy = policy;
    push_ack_stats_known = false;
    push_ack_inserted_total = 0;
    push_ack_ignored_total = 0;
    swarm = swarm;
  }

  -- `P2pClient::new`
  unfoldable pub new_client : RequestRetryPolicy → SyncTarget → S → Result (P2pClient S)
  unfolding made_client
  new_client policy t world = elim (start.new_swarm world) [
    | ok swarm ↦ ok (made_client policy t world swarm)
    | err e ↦ err e
  ]

  -- The state after a client has been used.
  left_by : SyncState S → LocalStore → P2pClient S → SyncState S
  left_by s local client = record s { local = local; remote = client.swarm }

  push_ended : SyncState S → Result PullStats → ℕ → Text → Run (P2pClient S) ℕ → SyncState S
  push_ended s pull pending peer_key run =
      let pushed = with_context (codes "p2p push peer: " ++ peer_key) run.result in
      observed
        (record { pull = pull; push = some (ok (record { pending = pending; pushed = pushed })) })
        (after_push (ltb 0 pending) pushed
          (push_noted pending (after_pull pull (left_by s run.local run.remote))))

abbrev push_of : Option Text → Bool
push_of none = false
push_of (some id) = true

module _ (T : Type 0) {S : Type 0} ⦃time : TimeApi T⦄ ⦃sql : Sqlite⦄ ⦃start : NewSwarm S⦄
    ⦃net : Swarm S⦄ ⦃requests : Requests T S⦄ (fuel limit : ℕ) (policy : RequestRetryPolicy) where
  -- `none`: no push was asked for.
  pull_ended :
      Option Text → SyncTarget → SyncState S → Run (P2pClient S) PullStats → Option (SyncState S)
  pull_ended none t s run =
      let pull = with_context (codes "p2p pull peer: " ++ t.peer_key) run.result in
      some (
        observed (record { pull = pull; push = none })
          (after_pull pull (left_by s run.local run.remote)))
  pull_ended (some device_id) t s run =
      let pull = with_context (codes "p2p pull peer: " ++ t.peer_key) run.result in
      let pending = count_pending_push_entries run.local t.peer_key (some device_id) in
      Opt.map (push_ended s pull pending t.peer_key) (
        sync_push_to_peer_async {T = T} fuel run.local t.peer_key limit (some device_id)
          push_batch_with_retries (reset_push_ack_stats run.remote))

  -- One peer; `none` where a loop's fuel runs out.
  unfoldable pub sync_target : Option Text → SyncState S → SyncTarget → Option (SyncState S)
  unfolding pull_ended push_ended left_by new_client reset_push_ack_stats
  sync_target push_device_id s t = elim (new_client policy t s.remote) [
    | err e ↦ some (observed (record { pull = err e; push = none }) (after_pull (err e) s))
    | ok client ↦
        elim (sync_pull_from_peer_async {T = T} fuel s.local t.peer_key limit
          pull_batch_with_retries client) [
            | none ↦ none
            | some run ↦ pull_ended push_device_id t s run
          ]
  ]

  ended : LocalStore → S → Result (Unit {0}) → Option (SyncRun S)
  ended local world r = some (record { result = r; local = local; remote = world; outcomes = [] })

  -- The loop over the peers that were found.
  unfoldable pub sync_targets :
      Bool → Option Text → S → Stored (List SyncTarget) → Option (SyncRun S)
  unfolding ended
  sync_targets push device_id world (err e, local) = ended local world (err e)
  sync_targets push device_id world (ok [], local) =
      ended local world (err (anyhow "no peers found"))
  sync_targets false device_id world (ok (t ∷ targets), local) =
      Opt.map (sync_result (codes "p2p sync failed"))
        (each_peer (sync_target none) (t ∷ targets) (sync_start false local world))
  sync_targets true none world (ok (t ∷ targets), local) =
      ended local world (err (anyhow "device_id required for push"))
  sync_targets true (some device_id) world (ok (t ∷ targets), local) =
      Opt.map (sync_result (codes "p2p sync failed"))
        (each_peer (sync_target (some device_id)) (t ∷ targets) (sync_start true local world))

  unfoldable pub sync_async :
      ⦃text : AddrText⦄ ⦃json : AddrsJson⦄
      → (Text → Result (List PeerInfo))
      → ℤ
      → List Text
      → LocalStore
      → SyncConfig
      → Bool
      → S
      → Option (SyncRun S)
  unfolding sync_targets ended
  sync_async list now peers store cfg push world =
      if limit == 0
      then ended store world (ok tt)
      else sync_targets push cfg.device_id world (
          if is_empty peers
          then discover_targets list now store cfg
          else build_manual_targets now store peers cfg.relay_addr)

  pull_ended-Leaves :
      (device_id : Option Text) (n : ℕ) (t : SyncTarget) (s : SyncState S)
      (run : Run (P2pClient S) PullStats)
      → IsTracked (push_of device_id) n s
      → Leaves (IsTracked (push_of device_id) (suc n)) (pull_ended device_id t s run)
  unfolding pull_ended push_ended left_by
  pull_ended-Leaves none n t s run h =
      pulled-IsTracked false n _ _ (moved-IsTracked false n s run.local run.remote.swarm h)
  pull_ended-Leaves (some id) n t s run h =
      elim (Option-cases (
        sync_push_to_peer_async {T = T} fuel run.local t.peer_key limit (some id)
          push_batch_with_retries (reset_push_ack_stats run.remote))) [
            | inl e ↦ rw e tt
            | inr (run', e) ↦ rw e (
                pushed-IsTracked true n _ _ _ _ refl
                  (moved-IsTracked true n s run'.local run'.remote.swarm h))
          ]

  sync_target-Leaves :
      (device_id : Option Text) (n : ℕ) (s : SyncState S) (t : SyncTarget)
      → IsTracked (push_of device_id) n s
      → Leaves (IsTracked (push_of device_id) (suc n)) (sync_target device_id s t)
  unfolding sync_target
  sync_target-Leaves device_id n s t h = elim (Result-cases (new_client policy t s.remote)) [
    | inr (e, made) ↦ rw (made, sync_target) (pulled-IsTracked (push_of device_id) n (err e) s h)
    | inl (client, made) ↦
        elim (Option-cases (
          sync_pull_from_peer_async {T = T} fuel s.local t.peer_key limit pull_batch_with_retries
            client)) [
              | inl e ↦ rw (made, e, sync_target, Leaves) tt
              | inr (run, e) ↦
                  rw (made, e, sync_target, Leaves) (pull_ended-Leaves device_id n t s run h)
            ]
  ]

  all_targets-IsVerdict :
      (device_id : Option Text) (world : S) (t : SyncTarget) (targets : List SyncTarget)
      (local : LocalStore) (run : SyncRun S)
      → Opt.map (sync_result (codes "p2p sync failed")) (
          each_peer
            (sync_target device_id)
            (t ∷ targets)
            (sync_start (push_of device_id) local world))
        ≡ some run
      → IsVerdict run × (length run.outcomes ≡ length (t ∷ targets))
  all_targets-IsVerdict device_id world t targets local run e =
      let start = sync_start (push_of device_id) local world in
      elim (Option-cases (each_peer (sync_target device_id) (t ∷ targets) start)) [
        | inl out ↦ absurd (cc (rw out at e))
        | inr (s, found) ↦
            let same : sync_result (codes "p2p sync failed") s ≡ run = cc (rw found at e) in
            subst (λ run. IsVerdict run × (length run.outcomes ≡ length (t ∷ targets))) same
              (each_peer-IsVerdict (push_of device_id) (sync_target device_id)
                (λ n s t. sync_target-Leaves device_id n s t) (codes "p2p sync failed") t targets
                local world s found)
      ]

  -- Where a run over the peers that were found returns, whatever happened with each of them, every
  -- peer has had its turn, and the run is well if and only if some pull was and, where anything was to
  -- be pushed to any peer, some push of it was; otherwise its error is the last one that occurred.
  pub sync_targets-IsVerdict :
      (push : Bool) (device_id : Option Text) (world : S) (t : SyncTarget)
      (targets : List SyncTarget) (local : LocalStore) (run : SyncRun S)
      → (push ≡ true → device_id ≢ none)
      → sync_targets push device_id world (ok (t ∷ targets), local) ≡ some run
      → IsVerdict run × (length run.outcomes ≡ length (t ∷ targets))
  unfolding sync_targets
  sync_targets-IsVerdict false device_id world t targets local run given e =
      all_targets-IsVerdict none world t targets local run e
  sync_targets-IsVerdict true none world t targets local run given e = absurd (given refl refl)
  sync_targets-IsVerdict true (some id) world t targets local run given e =
      all_targets-IsVerdict (some id) world t targets local run e
