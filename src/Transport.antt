-- ===== src/Transport.antt =====
-- src/transport.rs: the HTTP server for entries. A request carries its body; JSON is a parameter.
pub mod Routes
pub mod Query
pub mod Client
pub mod Remote
pub mod Pulled
pub mod Pushed
pub mod Peers
use rustory.Prelude.{
  ℕ, ◌+◌, ℤ, pos, Text, codes, Bool, true, false, Option, none, some, List, [], ◌∷◌, length, take,
  is_empty, ltb, text_eq, if◌then◌else◌, ◌&&◌,
}
use rustory.Prelude.Words.{trim, trim_end_matches, split_once, split_on, parse_i64, parse_usize}
use rustory.Errors.{Error, Result, ok, err, anyhow, ◌>>=◌}
use rustory.Core.{Entry, TimeApi}
use rustory.Storage.Schema.{Sqlite, LocalStore}
use rustory.Storage.Entries.{PullBatch, insert_entries_with_stats, pull_since_cursor}

-- `tiny_http::Request`; a body that cannot be read is `none`.
pub record Request : Type 0 where
  pub method : Text
  pub url : Text
  pub body : Option (List ℕ)

pub data EntriesRequest (T : Type 0) : Type 0 where
  array : List (Entry T) → EntriesRequest T
  object : List (Entry T) → EntriesRequest T

pub data Response (T : Type 0) : Type 0 where
  respond_text : ℕ → Text → Response T
  entries_response : PullBatch T → Response T
  push_response : (inserted ignored : ℕ) → Response T
  -- A 500 with the text `error: {err:#}`.
  error_response : Error → Response T

-- `serde_json::from_slice` of a body.
pub record EntriesJson (T : Type 0) : Type 0 where
  pub from_slice : List ℕ → Option (EntriesRequest T)

abbrev max_request_body_bytes : ℕ
max_request_body_bytes = 16_777_216

unfoldable pub normalize_peer_base_url : Text → Result Text
normalize_peer_base_url value =
    if is_empty (trim_end_matches 47 (trim value))
    then err (anyhow "peer url is empty")
    else ok (trim_end_matches 47 (trim value))

parsed : {A : Type 0} → Option A → Result A
parsed none = err (anyhow "parse query")
parsed (some a) = ok a

-- One part of a query, with the cursor and the limit so far.
query_part : Option (Text × Text) → ℤ × ℕ → Result (ℤ × ℕ)
query_part none (cursor, limit) = ok (cursor, limit)
query_part (some (k, v)) (cursor, limit) =
    if text_eq k (codes "cursor")
    then (parsed (parse_i64 v) >>= λ c. ok (c, limit))
    else if text_eq k (codes "limit")
    then (parsed (parse_usize v) >>= λ l. ok (cursor, l))
    else ok (cursor, limit)

query_loop : List Text → ℤ × ℕ → Result (ℤ × ℕ)
query_loop [] found = ok found
query_loop (part ∷ parts) found = query_part (split_once 61 part) found >>= query_loop parts

unfoldable pub parse_cursor_limit : Option Text → Result (ℤ × ℕ)
unfolding query_loop query_part parsed
parse_cursor_limit none = ok (pos 0, 1000)
parse_cursor_limit (some query) = query_loop (split_on 38 query) (pos 0, 1000)

abbrev pub Handled : Type 0 → Type 0
Handled T = Result (Response T) × LocalStore

abbrev pub entries_of_request : {T : Type 0} → EntriesRequest T → List (Entry T)
entries_of_request (array entries) = entries
entries_of_request (object entries) = entries

module _ {T : Type 0} ⦃time : TimeApi T⦄ ⦃sql : Sqlite⦄ ⦃json : EntriesJson T⦄
    (store : LocalStore) where
  -- GET /api/v1/entries
  get_entries : Option Text → Result (Response T)
  get_entries query = parse_cursor_limit query >>= λ (cursor, limit).
      pull_since_cursor store cursor limit >>= λ batch. ok (entries_response batch)

  post_parsed : Option (EntriesRequest T) → Handled T
  post_parsed none = (err (anyhow "parse entries request json"), store)
  post_parsed (some req_body) =
      let (store', stats) = insert_entries_with_stats store (entries_of_request req_body) in
      (ok (push_response stats.inserted stats.ignored), store')

  -- POST /api/v1/entries
  post_entries : Option (List ℕ) → Handled T
  post_entries none = (err (anyhow "read request body"), store)
  post_entries (some body) =
      let buf = take (max_request_body_bytes + 1) body in
      if ltb max_request_body_bytes (length buf)
      then (ok (respond_text 413 (codes "payload too large\n")), store)
      else post_parsed (json.from_slice buf)

  route_api : Text → Text → Option Text → Option (List ℕ) → Handled T
  route_api method path query body =
      if text_eq method (codes "GET") && text_eq path (codes "/api/v1/ping")
      then (ok (respond_text 200 (codes "ok\n")), store)
      else if text_eq method (codes "GET") && text_eq path (codes "/api/v1/entries")
      then (get_entries query, store)
      else if text_eq method (codes "POST") && text_eq path (codes "/api/v1/entries")
      then post_entries body
      else (ok (respond_text 404 (codes "not found\n")), store)

  route_url : Request → Option (Text × Text) → Handled T
  route_url req none = route_api req.method req.url none req.body
  route_url req (some (path, query)) = route_api req.method path (some query) req.body

  unfoldable pub route_http_request : Request → Handled T
  unfolding get_entries post_parsed post_entries route_api route_url
  route_http_request req = route_url req (split_once 63 req.url)

unfoldable pub answered : {T : Type 0} → Result (Response T) → Response T
answered (ok response) = response
answered (err e) = error_response e

module _ {T : Type 0} ⦃time : TimeApi T⦄ ⦃sql : Sqlite⦄ ⦃json : EntriesJson T⦄ where
  unfoldable pub serve_http : LocalStore → List Request → List (Response T) × LocalStore
  unfolding route_http_request answered
  serve_http store [] = ([], store)
  serve_http store (req ∷ reqs) =
      let (result, store') = route_http_request store req in
      let (responses, last) = serve_http store' reqs in (answered result ∷ responses, last)
