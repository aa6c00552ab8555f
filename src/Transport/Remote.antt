-- ===== src/Transport/Remote.antt =====
-- src/transport.rs: a pull over HTTP from a server that answers from its store.
use rustory.Prelude.{
  ℕ, ℤ, ◌<◌, ◌≡◌, ◌⊎◌, refl, ap, Text, codes, Option, none, some, [], ◌∷◌, ◌++◌, arith, text_eq,
  inl, inr,
}
use mathlib.Core.Path.{subst}
use rustory.Prelude.Words.{split_once, split_once-append, show_i64, show_u64, trim_end_matches}
use rustory.Prelude.Decimal.{
  IsI64, parse_i64-show_i64, parse_usize-show_u64, show_i64_avoids, show_u64_avoids,
}
use rustory.Errors.{ok, ◌>>=◌, Result-cases, ok_injective}
use rustory.Core.{TimeApi}
use rustory.HttpRetry.{Answer, reply, failed, RetryRun, request_with_retry}
use rustory.HttpRetry as Http
use rustory.HttpRetry.Replies.{request_with_retry-IsReplied}
use rustory.Storage.Schema.{Sqlite, LocalStore}
use rustory.Storage.Entries.{PullBatch, pull_since_cursor}
use rustory.Transport.{
  Request, Response, respond_text, entries_response, push_response, error_response, EntriesJson,
  answered, route_http_request, route_url, route_api, get_entries, parse_cursor_limit,
}
use rustory.Transport.Query.{pull_query, parse_cursor_limit-pull_query}
use rustory.Transport.Client.{WireJson, Web, body_of, parsed_batch, pull_path, http_pull_batch}

-- The server reads back the cursor and the limit that a pull prints.
parse_cursor_limit-printed :
    (cursor : ℤ) (limit : ℕ)
    → IsI64 cursor
    → limit < 18446744073709551616
    → parse_cursor_limit (some (pull_query (show_i64 cursor) (show_u64 limit))) ≡ ok (cursor, limit)
parse_cursor_limit-printed cursor limit hc hl =
    parse_cursor_limit-pull_query (show_i64 cursor) (show_u64 limit) cursor limit
      (show_i64_avoids 38 cursor (omega arith)) (show_u64_avoids 38 limit (omega arith))
      (parse_i64-show_i64 cursor hc) (parse_usize-show_u64 limit hl)

abbrev pub get_request : Text → Request
get_request url = record { method = codes "GET"; url = url; body = some [] }

path_split :
    (query : Text)
    → split_once 63 (codes "/api/v1/entries" ++ 63 ∷ query) ≡ some (codes "/api/v1/entries", query)
path_split query = split_once-append 63 (codes "/api/v1/entries") query (ground arith)

module _ {T : Type 0} ⦃time : TimeApi T⦄ ⦃sql : Sqlite⦄ ⦃json : EntriesJson T⦄ where
  get_entries-printed :
      (far : LocalStore) (cursor : ℤ) (limit : ℕ)
      → IsI64 cursor
      → limit < 18446744073709551616
      → get_entries {T = T} far (some (pull_query (show_i64 cursor) (show_u64 limit)))
        ≡ (pull_since_cursor far cursor limit >>= λ batch. ok (entries_response batch))
  unfolding get_entries
  get_entries-printed far cursor limit hc hl =
      rw (parse_cursor_limit-printed cursor limit hc hl) refl

  -- The server answers the request of a pull by what its store returns for the cursor and limit.
  pub route-pull_path :
      (far : LocalStore) (cursor : ℤ) (limit : ℕ)
      → IsI64 cursor
      → limit < 18446744073709551616
      → (route_http_request {T = T} far (get_request (pull_path cursor limit))).0
        ≡ (pull_since_cursor far cursor limit >>= λ batch. ok (entries_response batch))
  unfolding route_http_request route_url route_api pull_path text_eq
  route-pull_path far cursor limit hc hl =
      rw (path_split (pull_query (show_i64 cursor) (show_u64 limit)))
        (get_entries-printed far cursor limit hc hl)

-- The texts that a reply may have for a response: the body, unless it cannot be read. `ureq` makes
-- an error of the statuses from 400 on, so that such a response is no reply.
abbrev pub IsReplyTo : {T : Type 0} → ⦃wire : WireJson T⦄ → Response T → Option Text → Type 0
IsReplyTo (respond_text code body) v = (code < 400) × ((v ≡ none) ⊎ (v ≡ some body))
IsReplyTo ⦃wire⦄ (entries_response batch) v = (v ≡ none) ⊎ (v ≡ some (wire.batch_text batch))
IsReplyTo (push_response inserted ignored) v = Unit
IsReplyTo (error_response e) v = 500 < 400

-- Behind the URL is a server with the store `far`: every reply to a GET is one to its response.
abbrev pub IsServed :
    (T : Type 0)
    → {R : Type 0} → ⦃time : TimeApi T⦄ → ⦃sql : Sqlite⦄ → ⦃json : EntriesJson T⦄
    → ⦃wire : WireJson T⦄ → Web R
    → Text
    → LocalStore
    → Type 0
IsServed T {R} web base far =
    (path : Text) (remote : R) (connect read : ℕ) (v : Option Text)
    → (web.get (base ++ path) remote connect read).0 ≡ reply v
    → IsReplyTo (answered {T = T} (route_http_request far (get_request path)).0) v

module _ {T : Type 0} ⦃time : TimeApi T⦄ ⦃wire : WireJson T⦄ where
  decoded_batch :
      (text : Text) (b batch : PullBatch T)
      → (some text ≡ none) ⊎ (some text ≡ some (wire.batch_text b))
      → parsed_batch (wire.text_batch text) ≡ ok batch
      → b ≡ batch
  unfolding parsed_batch
  decoded_batch text b batch (inl gone) e = absurd (cc)
  decoded_batch text b batch (inr same) e =
      let text_is : wire.batch_text b ≡ text = cc in
      let read : wire.text_batch text ≡ some b =
        subst (λ s. wire.text_batch s ≡ some b) text_is (wire.text_batch-batch_text b) in
      ok_injective (rw (read, parsed_batch) at e)

  reply_batch :
      (what : Text) (far : LocalStore) (cursor : ℤ) (limit : ℕ)
      (answer : Option (Answer (Option Text))) (batch : PullBatch T)
      → ((v : Option Text)
          → answer ≡ some (reply v)
          → IsReplyTo
              (answered {T = T}
                (pull_since_cursor far cursor limit >>= λ b. ok (entries_response b)))
              v)
      → (body_of what answer >>= λ body. parsed_batch (wire.text_batch body)) ≡ ok batch
      → pull_since_cursor far cursor limit ≡ ok batch
  unfolding body_of answered
  reply_batch what far cursor limit none batch h e = absurd (cc)
  reply_batch what far cursor limit (some (failed error)) batch h e = absurd (cc)
  reply_batch what far cursor limit (some (reply none)) batch h e = absurd (cc)
  reply_batch what far cursor limit (some (reply (some text))) batch h e =
      elim (Result-cases (pull_since_cursor {T = T} far cursor limit)) [
        | inl (b, found) ↦
            let sent : (some text ≡ none) ⊎ (some text ≡ some (wire.batch_text b)) =
              subst
                (λ r. IsReplyTo (answered {T = T} (r >>= λ b. ok (entries_response b))) (some text))
                found (h (some text) refl) in
            rw found (ap ok (decoded_batch text b batch sent e))
        | inr (error, bad) ↦
            let sent =
              subst
                (λ r. IsReplyTo (answered {T = T} (r >>= λ b. ok (entries_response b))) (some text))
                bad (h (some text) refl) in
            absurd (omega (arith, sent))
      ]

module _ {T R : Type 0} ⦃time : TimeApi T⦄ ⦃sql : Sqlite⦄ ⦃json : EntriesJson T⦄
    ⦃wire : WireJson T⦄ where
  -- Every batch that a pull over HTTP returns is what the server's store returns for the cursor and
  -- limit, where these are in their ranges.
  pub http_pull_batch-answered :
      (web : Web R) (base : Text) (far : LocalStore) (remote : R) (cursor : ℤ) (limit : ℕ)
      (batch : PullBatch T)
      → IsServed T web (trim_end_matches 47 base) far
      → IsI64 cursor
      → limit < 18446744073709551616
      → (http_pull_batch web base remote cursor limit).0 ≡ ok batch
      → pull_since_cursor far cursor limit ≡ ok batch
  unfolding http_pull_batch
  http_pull_batch-answered web base far remote cursor limit batch served hc hl e =
      let path = pull_path cursor limit in
      let url = trim_end_matches 47 base ++ path in
      let sound =
        request_with_retry-IsReplied Http.transport (web.get url)
          (λ v. IsReplyTo (answered {T = T} (route_http_request far (get_request path)).0) v)
          (served path) remote in
      reply_batch (codes "GET " ++ url) far cursor limit
        (request_with_retry Http.transport (web.get url) remote).result batch
        (λ v h.
          subst (λ r. IsReplyTo (answered {T = T} r) v) (route-pull_path far cursor limit hc hl)
            (sound v h))
        e
