-- ===== src/P2p/Pulled.antt =====
-- src/p2p.rs: a pull from a peer that answers from its store.
use rustory.Prelude.{ℕ, ◌<◌, ◌≡◌, ◌∙◌, refl, Text, some}
use rustory.Core.{TimeApi}
use rustory.Storage.Schema.{Sqlite, LocalStore}
use rustory.Storage.Entries.Invariant.{IsWellFormed}
use rustory.Storage.Peers.{get_last_cursor}
use rustory.Sync.{Run, PullStats}
use rustory.Sync.Pull.{PullFn, sync_pull_from_peer, sync_pull_from_peer_async}
use rustory.Sync.Pull.NoGap.{IsGapless, sync_pull-IsGapless}
use rustory.P2p.Client.{Swarm, Requests, P2pClient, pull_batch_with_retries}
use rustory.P2p.Client.Replies.{IsServing, pull_batch_with_retries-answered}

async_same :
    {T R : Type 0} ⦃time : TimeApi T⦄ ⦃sql : Sqlite⦄ (fuel : ℕ) (db : LocalStore) (peer_id : Text)
    (limit : ℕ) (pull : PullFn T R) (remote : R)
    → sync_pull_from_peer fuel db peer_id limit pull remote
      ≡ sync_pull_from_peer_async fuel db peer_id limit pull remote
unfolding sync_pull_from_peer sync_pull_from_peer_async
async_same fuel db peer_id limit pull remote = refl

-- Whatever connections fail, time out or are retried: where a peer with a well-formed store answers,
-- the rows past the old cursor are, however the pull ends, rows whose entry ids are stored by now,
-- followed by the rows past the new cursor; a pull that ends well leaves none and counts each once.
pub p2p_pull-IsGapless :
    {T S : Type 0} ⦃time : TimeApi T⦄ ⦃sql : Sqlite⦄ ⦃net : Swarm S⦄ ⦃requests : Requests T S⦄
    (far : LocalStore) (fuel : ℕ) (db : LocalStore) (peer_key : Text) (limit : ℕ)
    (client : P2pClient S) (run : Run (P2pClient S) PullStats)
    → IsWellFormed time far
    → IsServing S time far
    → 0 < limit
    → sync_pull_from_peer_async {T = T} fuel db peer_key limit pull_batch_with_retries client
      ≡ some run
    → IsGapless peer_key far.entries (get_last_cursor db peer_key) run
p2p_pull-IsGapless ⦃time⦄ far fuel db peer_key limit client run w serving room e =
    sync_pull-IsGapless peer_key far (get_last_cursor db peer_key) w fuel db limit
      pull_batch_with_retries client run refl room
      (λ c cursor l batch h. pull_batch_with_retries-answered time far serving c cursor l batch h)
      (async_same fuel db peer_key limit pull_batch_with_retries client ∙ e)
