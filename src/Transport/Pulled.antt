-- ===== src/Transport/Pulled.antt =====
-- src/transport.rs: the whole sync over HTTP, from the client's store to the server's and back.
use rustory.Prelude.{
  ℕ, ℤ, ◌+◌, ◌<◌, ◌≤◌, [], ◌∷◌, ltb, arith, if◌then◌else◌, ◌≡◌, refl, sym, ◌∙◌, ap, Text, codes,
  some, ◌++◌, inl, inr, length, Bool-cases,
}
use rustory.Prelude.Words.{trim_end_matches}
use rustory.Prelude.Decimal.{IsI64}
use rustory.Errors.{ok, ◌>>=◌}
use rustory.Core.{TimeApi}
use rustory.HttpRetry.{Answer, reply, request_with_retry}
use rustory.HttpRetry as Http
use rustory.HttpRetry.Replies.{request_with_retry-reply}
use rustory.Storage.Schema.{Sqlite, LocalStore}
use rustory.Storage.Entries.{PullBatch, pull_since_cursor}
use rustory.Storage.Entries.Invariant.{IsWellFormed}
use rustory.Storage.Entries.Paging.{after}
use rustory.Storage.Entries.Pull.{pull_since_cursor_lem}
use rustory.Storage.Peers.{get_last_cursor}
use rustory.Sync.{Run, PullStats}
use rustory.Sync.Pull.{PullFn, sync_pull_from_peer}
use rustory.Sync.Pull.NoGap.{IsGapless, sync_pull-IsGapless}
use rustory.Sync.Pull.Complete.{IsOk, IsObliging, sync_pull_complete}
use rustory.Sync.Pull.Range.{
  seq_bound, limit_bound, in_range, in_range_of, within, within-IsHonest, IsHonestInRange,
  sync_pull_within,
}
use rustory.Transport.{entries_response, EntriesJson, normalize_peer_base_url, route_http_request}
use rustory.Transport.Client.{
  WireJson, Web, body_of, parsed_batch, pull_path, http_pull_batch, sync_pull_http_peer,
}
use rustory.Transport.Remote.{IsServed, get_request, route-pull_path, http_pull_batch-answered}

-- The bytes of a text in UTF-8.
unfoldable pub byte_length : Text → ℕ
byte_length [] = 0
byte_length (c ∷ t) =
    (if ltb c 128 then 1 else if ltb c 2048 then 2 else if ltb c 65536 then 3 else 4)
    + byte_length t

-- Behind the URL is a server with the store `far`, and the network loses nothing: each list of
-- entries that the server returns arrives, if its text is not longer than what the client reads.
abbrev pub IsReached :
    (T : Type 0)
    → {R : Type 0} → ⦃time : TimeApi T⦄ → ⦃sql : Sqlite⦄ → ⦃json : EntriesJson T⦄
    → ⦃wire : WireJson T⦄ → Web R
    → Text
    → LocalStore
    → Type 0
IsReached T {R} ⦃wire = wire⦄ web base far =
    (path : Text) (remote : R) (connect read : ℕ) (batch : PullBatch T)
    → (route_http_request far (get_request path)).0 ≡ ok (entries_response batch)
    → byte_length (wire.batch_text batch) ≤ web.string_limit
    → (web.get (base ++ path) remote connect read).0 ≡ reply (some (wire.batch_text batch))

-- The text of each page of at most `limit` entries of `far` is one that the client reads.
abbrev pub IsReadPages :
    (T : Type 0)
    → {R : Type 0} → ⦃time : TimeApi T⦄ → ⦃wire : WireJson T⦄ → Web R
    → LocalStore
    → ℕ
    → Type 0
IsReadPages T ⦃wire = wire⦄ web far limit =
    (cursor : ℤ) (size : ℕ) (batch : PullBatch T)
    → size ≤ limit
    → pull_since_cursor far cursor size ≡ ok batch
    → byte_length (wire.batch_text batch) ≤ web.string_limit

module _ {T R : Type 0} ⦃time : TimeApi T⦄ ⦃sql : Sqlite⦄ ⦃json : EntriesJson T⦄ ⦃wire : WireJson T⦄
    (web : Web R) (far : LocalStore) (w : IsWellFormed time far)
    (small : far.entries_mark < seq_bound) where
  read_back :
      (what : Text) (batch : PullBatch T)
      → (body_of what (some (reply (some (wire.batch_text batch)))) >>= λ body.
          parsed_batch (wire.text_batch body))
        ≡ ok batch
  unfolding body_of parsed_batch
  read_back what batch = rw (wire.text_batch-batch_text batch, parsed_batch) refl

  http_pull_batch-reached :
      (base : Text) (remote : R) (cursor : ℤ) (limit : ℕ) (top : ℕ)
      → IsReadPages T web far top
      → limit ≤ top
      → IsReached T web (trim_end_matches 47 base) far
      → IsI64 cursor
      → limit < limit_bound
      → (http_pull_batch {T = T} web base remote cursor limit).0
        ≡ pull_since_cursor far cursor limit
  unfolding http_pull_batch
  http_pull_batch-reached base remote cursor limit top fits below reached hc hl =
      let found = pull_since_cursor_lem far cursor limit w in
      let path = pull_path cursor limit in
      let url = trim_end_matches 47 base ++ path in
      let routed =
        route-pull_path far cursor limit hc hl
        ∙ ap (λ r. r >>= λ b. ok (entries_response b)) found in
      let result = request_with_retry-reply Http.transport (web.get url) remote _ (λ connect read.
        reached path remote connect read _ routed (fits cursor limit _ below found)) in
      rw (result, found) (read_back (codes "GET " ++ url) _)

  served_run :
      (fuel : ℕ) (db : LocalStore) (peer_base_url peer_key : Text) (limit : ℕ) (remote : R)
      → normalize_peer_base_url peer_base_url ≡ ok peer_key
      → sync_pull_http_peer T web fuel db peer_base_url limit remote
        ≡ sync_pull_from_peer {T = T} fuel db peer_key limit (http_pull_batch web peer_key) remote
  unfolding sync_pull_http_peer
  served_run fuel db peer_base_url peer_key limit remote e = rw (e, sync_pull_http_peer) refl

  -- Where a server with a well-formed store stands behind the URL, whatever the network loses, the
  -- rows past the old cursor are, however the sync ends, rows whose entry ids are stored by now,
  -- followed by the rows past the new cursor; a run that ends well leaves none and counts each once.
  pub sync_pull_http_peer-IsGapless :
      (fuel : ℕ) (db : LocalStore) (peer_base_url peer_key : Text) (limit : ℕ) (remote : R)
      (run : Run R PullStats)
      → normalize_peer_base_url peer_base_url ≡ ok peer_key
      → IsI64 (get_last_cursor db peer_key)
      → 0 < limit
      → limit < limit_bound
      → IsServed T web (trim_end_matches 47 peer_key) far
      → sync_pull_http_peer T web fuel db peer_base_url limit remote ≡ some run
      → IsGapless peer_key far.entries (get_last_cursor db peer_key) run
  sync_pull_http_peer-IsGapless fuel db peer_base_url peer_key limit remote run key hc room hl
        served e =
      let pull = http_pull_batch {T = T} web peer_key in
      let honest : IsHonestInRange peer_key far w small limit_bound pull = λ r c l batch hc' hl' h.
        http_pull_batch-answered web peer_key far r c l batch served hc' hl' h in
      sync_pull-IsGapless peer_key far (get_last_cursor db peer_key) w fuel db limit
        (within peer_key far w small limit_bound pull) remote run refl room
        (within-IsHonest peer_key far w small limit_bound pull honest)
        (sym (
            sync_pull_within peer_key far w small limit_bound fuel db limit pull remote hc hl
              honest)
          ∙ sym (served_run fuel db peer_base_url peer_key limit remote key)
          ∙ e)

  reached_pull : Text → ℕ → PullFn T R
  reached_pull peer_key top = within peer_key far w small (top + 1) (http_pull_batch web peer_key)

  reached_pull-IsObliging :
      (peer_key : Text) (top : ℕ)
      → top < limit_bound
      → IsReadPages T web far top
      → IsReached T web (trim_end_matches 47 peer_key) far
      → IsObliging time far (reached_pull peer_key top)
  unfolding reached_pull within
  reached_pull-IsObliging peer_key top bound fits reached remote cursor limit =
      elim (Bool-cases (in_range (top + 1) cursor limit)) [
        | inl t ↦
            let (hc, hl) = in_range_of (top + 1) cursor limit t in
            rw t (
              inl (
                http_pull_batch-reached peer_key remote cursor limit top fits (omega (arith, hl))
                  reached hc (omega (arith, hl, bound))))
        | inr f ↦ rw f (inl refl)
      ]

  -- Where a server with a well-formed store stands behind the URL, the network loses nothing, and each
  -- page of at most `limit` entries, which is above zero, has a text that the client reads: more
  -- rounds than rows past the cursor plus the limit are enough. The sync ends well, and then every
  -- row of the server past the old cursor is stored by its entry id, and none is left. The keys of the
  -- server, the client's cursor and the limit are in their ranges of 64 bits.
  pub sync_pull_http_peer_complete :
      (fuel : ℕ) (db : LocalStore) (peer_base_url peer_key : Text) (limit : ℕ) (remote : R)
      → normalize_peer_base_url peer_base_url ≡ ok peer_key
      → IsI64 (get_last_cursor db peer_key)
      → 0 < limit
      → limit < limit_bound
      → IsReached T web (trim_end_matches 47 peer_key) far
      → IsReadPages T web far limit
      → length (after (get_last_cursor db peer_key) far.entries) + limit < fuel
      → (run : Run R PullStats) × (sync_pull_http_peer T web fuel db peer_base_url limit remote
          ≡ some run)
        × IsGapless peer_key far.entries (get_last_cursor db peer_key) run
        × IsOk run.result
  unfolding reached_pull
  sync_pull_http_peer_complete fuel db peer_base_url peer_key limit remote key hc room hl reached
        fits enough =
      let pull = http_pull_batch {T = T} web peer_key in
      let honest : IsHonestInRange peer_key far w small (limit + 1) pull = λ r c l batch hc' hl' h.
        sym (
          http_pull_batch-reached peer_key r c l limit fits (omega (arith, hl')) reached hc'
            (omega (arith, hl', hl)))
        ∙ h in
      let (run, returns, good, fine) =
        sync_pull_complete peer_key far w fuel db limit (reached_pull peer_key limit) remote room
          (reached_pull-IsObliging peer_key limit hl fits reached) enough in
      (
        run,
        served_run fuel db peer_base_url peer_key limit remote key
            ∙ sync_pull_within peer_key far w small (limit + 1) fuel db limit pull remote hc
                (omega arith) honest
            ∙ returns,
        good,
        fine,
      )
