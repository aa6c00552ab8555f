-- ===== src/Transport/Peers.antt =====
-- src/transport.rs: `sync`, the run over several peers.
use rustory.Prelude.{
  ℕ, Text, codes, Bool, true, false, Option, none, some, List, [], ◌∷◌, ◌++◌, ◌≡◌, refl, ltb,
  is_empty, if◌then◌else◌, inl, inr, Option-cases, length, suc,
}
use mathlib.Core.Path.{subst}
use mathlib.Core.Option as Opt
use rustory.Errors.{Error, Result, ok, err, anyhow}
use rustory.Core.{TimeApi}
use rustory.Storage.Schema.{Sqlite, LocalStore}
use rustory.Sync.{PullStats, Run}
use rustory.Sync.Peers.Verdict.{
  IsTracked, moved-IsTracked, IsVerdict, pulled-IsTracked, preflight-IsTracked, pushed-IsTracked,
  Leaves, each_peer-IsVerdict,
}
use rustory.Sync.Peers.{
  SyncState, SyncRun, with_context, sync_start, after_pull, push_noted, after_push, observed,
  each_peer, sync_result,
}
use rustory.Transport.Client.{
  WireJson, Web, sync_pull_http_peer, sync_push_http_peer, count_pending_http_push_entries,
}

module _ {R : Type 0} where
  push_result : SyncState R → Result PullStats → ℕ → Run R ℕ → Text → SyncState R
  push_result s pull pending run peer =
      let pushed = with_context (codes "push peer: " ++ peer) run.result in
      observed
        (record { pull = pull; push = some (ok (record { pending = pending; pushed = pushed })) })
        (after_push (ltb 0 pending) pushed (
          push_noted pending
            (after_pull pull (record s { local = run.local; remote = run.remote }))))

  preflight_failed : SyncState R → Result PullStats → Error → SyncState R
  preflight_failed s pull e =
      observed (record { pull = pull; push = some (err e) })
        (record (after_pull pull s) { last_err = some e })

module _ (T : Type 0) {R : Type 0} ⦃time : TimeApi T⦄ ⦃sql : Sqlite⦄ ⦃wire : WireJson T⦄
    (web : Web R) (fuel : ℕ) where
  -- if push { … }
  push_counted :
      SyncState R → Result PullStats → Text → Option Text → Result ℕ → Option (SyncState R)
  push_counted s pull peer device_id (err e) = some (preflight_failed s pull e)
  push_counted s pull peer device_id (ok pending) =
      Opt.map (λ run. push_result s pull pending run peer)
        (sync_push_http_peer T web fuel s.local peer 1000 device_id s.remote)

  pull_result : Bool → Option Text → Text → SyncState R → Run R PullStats → Option (SyncState R)
  pull_result push device_id peer s run =
      let pull = with_context (codes "pull peer: " ++ peer) run.result in
      let s' = record s { local = run.local; remote = run.remote } in
      if push
      then push_counted s' pull peer device_id
          (count_pending_http_push_entries s'.local peer device_id)
      else some (observed (record { pull = pull; push = none }) (after_pull pull s'))

  -- One peer; `none` where a loop's fuel runs out.
  unfoldable pub sync_peer : Bool → Option Text → SyncState R → Text → Option (SyncState R)
  unfolding push_counted pull_result push_result preflight_failed
  sync_peer push device_id s peer =
      elim (sync_pull_http_peer T web fuel s.local peer 1000 s.remote) [
        | none ↦ none
        | some run ↦ pull_result push device_id peer s run
      ]

  refused : LocalStore → R → Error → Option (SyncRun R)
  refused local remote e =
      some (record { result = err e; local = local; remote = remote; outcomes = [] })

  abbrev lacks_device : Bool → Option Text → Bool
  lacks_device push none = push
  lacks_device push (some id) = false

  unfoldable pub sync : List Text → LocalStore → Bool → Option Text → R → Option (SyncRun R)
  unfolding refused
  sync peers local push local_device_id remote =
      if is_empty peers
      then refused local remote (anyhow "no peers provided")
      else if lacks_device push local_device_id
      then refused local remote (anyhow "local_device_id required for push")
      else Opt.map (sync_result (codes "http sync failed"))
          (each_peer (sync_peer push local_device_id) peers (sync_start push local remote))

  push_counted-Leaves :
      (push : Bool) (n : ℕ) (s : SyncState R) (pull : Result PullStats) (peer : Text)
      (device_id : Option Text) (counted : Result ℕ)
      → push ≡ true
      → IsTracked push n s
      → Leaves (IsTracked push (suc n)) (push_counted s pull peer device_id counted)
  unfolding push_counted preflight_failed push_result
  push_counted-Leaves push n s pull peer device_id (err e) asked h =
      preflight-IsTracked push n pull e s h
  push_counted-Leaves push n s pull peer device_id (ok pending) asked h =
      elim (Option-cases (sync_push_http_peer T web fuel s.local peer 1000 device_id s.remote)) [
        | inr (run, e) ↦ rw e (
            pushed-IsTracked push n pull pending
              (with_context (codes "push peer: " ++ peer) run.result)
              (record s { local = run.local; remote = run.remote }) asked
              (moved-IsTracked push n s run.local run.remote h))
        | inl e ↦ rw e tt
      ]

  pull_result-Leaves :
      (push : Bool) (n : ℕ) (device_id : Option Text) (peer : Text) (s : SyncState R)
      (run : Run R PullStats)
      → IsTracked push n s
      → Leaves (IsTracked push (suc n)) (pull_result push device_id peer s run)
  unfolding pull_result
  pull_result-Leaves true n device_id peer s run h =
      push_counted-Leaves true n _ _ peer device_id _ refl
        (moved-IsTracked true n s run.local run.remote h)
  pull_result-Leaves false n device_id peer s run h =
      pulled-IsTracked false n _ _ (moved-IsTracked false n s run.local run.remote h)

  sync_peer-Leaves :
      (push : Bool) (n : ℕ) (device_id : Option Text) (s : SyncState R) (peer : Text)
      → IsTracked push n s
      → Leaves (IsTracked push (suc n)) (sync_peer push device_id s peer)
  unfolding sync_peer
  sync_peer-Leaves push n device_id s peer h =
      elim (Option-cases (sync_pull_http_peer T web fuel s.local peer 1000 s.remote)) [
        | inr (run, e) ↦
            rw (e, Leaves, sync_peer) (pull_result-Leaves push n device_id peer s run h)
        | inl e ↦ rw (e, Leaves, sync_peer) tt
      ]

  -- Where a run over some peers returns, whatever happened with each of them, every peer has had its
  -- turn, and the run is well if and only if some pull was and, where anything was to be pushed to any
  -- peer, some push of it was; otherwise its error is the last one that occurred.
  pub sync-IsVerdict :
      (peer : Text) (peers : List Text) (local : LocalStore) (push : Bool)
      (local_device_id : Option Text) (remote : R) (run : SyncRun R)
      → lacks_device push local_device_id ≡ false
      → sync (peer ∷ peers) local push local_device_id remote ≡ some run
      → IsVerdict run × (length run.outcomes ≡ length (peer ∷ peers))
  unfolding sync
  sync-IsVerdict peer peers local push local_device_id remote run device e =
      elim (Option-cases (
        each_peer (sync_peer push local_device_id) (peer ∷ peers) (sync_start push local remote))) [
          | inl out ↦ absurd (cc (rw (device, out) at e))
          | inr (s, found) ↦
              let same : sync_result (codes "http sync failed") s ≡ run =
                cc (rw (device, found) at e) in
              subst (λ run. IsVerdict run × (length run.outcomes ≡ length (peer ∷ peers))) same
                (each_peer-IsVerdict push (sync_peer push local_device_id)
                  (λ n s peer. sync_peer-Leaves push n local_device_id s peer)
                  (codes "http sync failed") peer peers local remote s found)
        ]
