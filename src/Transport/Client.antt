-- ===== src/Transport/Client.antt =====
-- src/transport.rs: the HTTP client of the sync. A call of `ureq` is a function on the state of the
-- network and the far side; its reply is the text of the body, unless this cannot be read.
use rustory.Prelude.{ℕ, ℤ, Text, codes, Option, none, some, List, [], ◌∷◌, ◌++◌, ◌≡◌}
use rustory.Prelude.Words.{trim_end_matches, show_i64, show_u64}
use rustory.Errors.{Cause, http_status, http_transport, message, Result, ok, err, anyhow, ◌>>=◌}
use rustory.Core.{Entry, TimeApi}
use rustory.HttpRetry.{
  HttpError, failure, status, Answer, reply, failed, RetryRun, request_with_retry,
}
use rustory.HttpRetry as Http
use rustory.Storage.Schema.{Sqlite, LocalStore}
use rustory.Storage.Entries.{PullBatch}
use rustory.Storage.Prune.{count_pending_push_entries}
use rustory.Sync.{Run, PullStats}
use rustory.Sync.Pull.{PullFn, sync_pull_from_peer}
use rustory.Sync.Push.{PushFn, sync_push_to_peer}
use rustory.Transport.{normalize_peer_base_url}
use rustory.Transport.Query.{pull_query}

-- `serde_json` on the entries that are pulled and pushed: what it writes it reads back.
pub record WireJson (T : Type 0) : Type 0 where
  pub batch_text : PullBatch T → Text
  pub text_batch : Text → Option (PullBatch T)
  pub text_batch-batch_text : (b : PullBatch T) → text_batch (batch_text b) ≡ some b
  pub entries_body : List (Entry T) → List ℕ

-- A GET or POST of a URL with a body, under the two timeouts of the agent.
pub record Web (R : Type 0) : Type 0 where
  pub get : Text → Http.Request R (Option Text)
  pub post : Text → List ℕ → Http.Request R (Option Text)
  -- The number of bytes up to which `into_string` reads a body.
  pub string_limit : ℕ

unfoldable pub http_cause : HttpError → Cause
http_cause failure = http_transport
http_cause (status code) = http_status code

-- `.with_context(|| format!("GET {url}"))?` and the text of the body.
unfoldable pub body_of : Text → Option (Answer (Option Text)) → Result Text
body_of what none = err (anyhow "attempts must be >= 1")
body_of what (some (failed e)) = err (message what ∷ http_cause e ∷ [])
body_of what (some (reply none)) = err (anyhow "read response body")
body_of what (some (reply (some text))) = ok text

unfoldable pub parsed_batch : {T : Type 0} → Option (PullBatch T) → Result (PullBatch T)
parsed_batch none = err (anyhow "parse entries response json")
parsed_batch (some batch) = ok batch

-- The path and the query of a pull.
unfoldable pub pull_path : ℤ → ℕ → Text
pull_path cursor limit =
    codes "/api/v1/entries" ++ 63 ∷ pull_query (show_i64 cursor) (show_u64 limit)

module _ {T R : Type 0} ⦃wire : WireJson T⦄ (web : Web R) where
  unfoldable pub http_pull_batch : Text → PullFn T R
  unfolding body_of parsed_batch http_cause
  http_pull_batch peer_base_url remote cursor limit =
      let url = trim_end_matches 47 peer_base_url ++ pull_path cursor limit in
      let run = request_with_retry Http.transport (web.get url) remote in
      (
        body_of (codes "GET " ++ url) run.result >>= λ body. parsed_batch (wire.text_batch body),
        run.remote,
      )

  unfoldable pub http_push_batch : Text → PushFn T R
  unfolding body_of http_cause
  http_push_batch peer_base_url remote entries =
      let url = trim_end_matches 47 peer_base_url ++ codes "/api/v1/entries" in
      let run =
        request_with_retry Http.transport (web.post url (wire.entries_body entries)) remote in
      (body_of (codes "POST " ++ url) run.result >>= λ body. ok tt, run.remote)

-- A run that ends before its loop.
not_run : {R A : Type 0} → LocalStore → R → Result A → Run R A
not_run local remote r = record { result = r; local = local; remote = remote }

module _ (T : Type 0) {R : Type 0} ⦃time : TimeApi T⦄ ⦃sql : Sqlite⦄ ⦃wire : WireJson T⦄
    (web : Web R) where
  unfoldable pub sync_pull_http_peer : ℕ → LocalStore → Text → ℕ → R → Option (Run R PullStats)
  unfolding not_run
  sync_pull_http_peer fuel local peer_base_url limit remote =
      elim (normalize_peer_base_url peer_base_url) [
        | err e ↦ some (not_run local remote (err e))
        | ok peer_key ↦
            sync_pull_from_peer {T = T} fuel local peer_key limit (http_pull_batch web peer_key)
              remote
      ]

  unfoldable pub sync_push_http_peer :
      ℕ → LocalStore → Text → ℕ → Option Text → R → Option (Run R ℕ)
  unfolding not_run
  sync_push_http_peer fuel local peer_base_url limit local_device_id remote =
      elim (normalize_peer_base_url peer_base_url) [
        | err e ↦ some (not_run local remote (err e))
        | ok peer_key ↦
            sync_push_to_peer {T = T} fuel local peer_key limit local_device_id
              (http_push_batch web peer_key) remote
      ]

unfoldable pub count_pending_http_push_entries : LocalStore → Text → Option Text → Result ℕ
count_pending_http_push_entries local peer_base_url local_device_id =
    normalize_peer_base_url peer_base_url >>= λ peer_key.
    ok (count_pending_push_entries local peer_key local_device_id)
