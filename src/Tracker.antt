-- ===== src/Tracker.antt =====
-- src/tracker.rs: the tracker's server. The table of peers is a list of ids and records in no
-- particular order, a request carries its headers and body, and the clock is an argument.
pub mod Peers
pub mod Routes
use rustory.Prelude.{
  ℕ, zero, suc, ◌+◌, ℤ, ◌-ℤ◌, Text, codes, Bool, true, false, Option, none, some, List, [], ◌∷◌,
  ◌++◌, map, length, take, keep_if, is_empty, not, ltb, leb_ℤ, as_i64, text_eq, opt_text_eq,
  if◌then◌else◌, ◌==◌, ◌&&◌,
}
use rustory.Prelude.Words.{trim, strip_prefix, split_once, split_on}
use rustory.Errors.{Error, Result, ok, err, anyhow}

pub record PeerMeta : Type 0 where
  pub device_id : Option Text
  pub hostname : Option Text
  pub user_id : Option Text
  pub version : Option Text

pub record RegisterRequest : Type 0 where
  pub peer_id : Text
  pub addrs : List Text
  pub meta : Option PeerMeta

pub record PeerInfo : Type 0 where
  pub peer_id : Text
  pub addrs : List Text
  pub meta : Option PeerMeta
  pub last_seen_unix : ℤ

pub record PeerRecord : Type 0 where
  pub addrs : List Text
  pub meta : Option PeerMeta
  pub last_seen_unix : ℤ

pub record TrackerState : Type 0 where
  pub peers : List (Text × PeerRecord)

-- `tiny_http::Request`; a body that cannot be read is `none`.
pub record Request : Type 0 where
  pub method : Text
  pub url : Text
  pub headers : List (Text × Text)
  pub body : Option (List ℕ)

pub data Response : Type 0 where
  respond_text : ℕ → Text → Response
  register_response : (ttl_sec : ℕ) → Response
  list_response : List PeerInfo → Response
  -- A 500 with the text `error: {err:#}`.
  error_response : Error → Response

-- What other packages compute: the comparison of header names, the JSON of a request, the text of a
-- peer id that parses, and the decoding of a query.
pub record TrackerApi : Type 0 where
  pub equiv : Text → Text → Bool
  pub parse_register : List ℕ → Option RegisterRequest
  pub parse_peer_id : Text → Option Text
  pub url_decode : Text → Option Text

abbrev max_request_body_bytes : ℕ
max_request_body_bytes = 16_777_216

unfoldable pub is_fresh : ℤ → ℕ → PeerRecord → Bool
is_fresh now_ts ttl_sec rec = leb_ℤ (now_ts -ℤ rec.last_seen_unix) (as_i64 ttl_sec)

unfoldable pub prune_expired : TrackerState → ℤ → ℕ → TrackerState
unfolding is_fresh
prune_expired state now ttl_sec =
    if ttl_sec == 0
    then record { peers = [] }
    else record { peers = keep_if (λ (id, rec). is_fresh now ttl_sec rec) state.peers }

-- `HashMap::insert`
unfoldable pub insert_peer : Text → PeerRecord → List (Text × PeerRecord) → List (Text × PeerRecord)
insert_peer peer_id rec [] = (peer_id, rec) ∷ []
insert_peer peer_id rec ((id, old) ∷ peers) =
    if text_eq id peer_id then (id, rec) ∷ peers else (id, old) ∷ insert_peer peer_id rec peers

query_part : Text → Option (Text × Text) → Option Text → Option Text
query_part key none rest = rest
query_part key (some (k, v)) rest = if text_eq k key then some v else rest

query_parts : List Text → Text → Option Text
query_parts [] key = none
query_parts (part ∷ parts) key = query_part key (split_once 61 part) (query_parts parts key)

unfoldable pub query_get : Text → Text → Option Text
unfolding query_parts query_part
query_get query key = query_parts (split_on 38 query) key

unfoldable pub header_value : ⦃api : TrackerApi⦄ → List (Text × Text) → Text → Option Text
header_value [] name = none
header_value ⦃api⦄ ((field, value) ∷ headers) name =
    if api.equiv field name then some value else header_value headers name

is_custom_token : Text → Option Text → Bool
is_custom_token token none = false
is_custom_token token (some value) = text_eq (trim value) token

is_bearer : Text → Bool → Option Text → Bool
is_bearer token otherwise none = otherwise
is_bearer token otherwise (some rest) = text_eq (trim rest) token

bearer_rest : Option Text → Option Text
bearer_rest none = none
bearer_rest (some value) = strip_prefix (codes "Bearer ") value

unfoldable pub is_authorized : ⦃api : TrackerApi⦄ → Request → Text → Bool
unfolding is_custom_token is_bearer bearer_rest
is_authorized req token =
    if is_empty (trim token)
    then true
    else is_bearer (trim token)
        (is_custom_token (trim token) (header_value req.headers (codes "X-Rustory-Token")))
        (bearer_rest (header_value req.headers (codes "Authorization")))

unfoldable pub is_refused : ⦃api : TrackerApi⦄ → Option Text → Request → Bool
is_refused none req = false
is_refused (some token) req = not (is_authorized req token)

abbrev pub trimmed_addrs : List Text → List Text
trimmed_addrs addrs = keep_if (λ a. not (is_empty a)) (map trim addrs)

-- The registration of a parsed request.
unfoldable pub register_peer : TrackerState → ℤ → ℕ → Text → RegisterRequest → TrackerState
unfolding prune_expired insert_peer
register_peer state now ttl_sec peer_id reg = record {
  peers =
      insert_peer peer_id
        (record { addrs = trimmed_addrs reg.addrs; meta = reg.meta; last_seen_unix = now })
        (prune_expired state now ttl_sec).peers;
}

unfoldable pub is_of_user : Option Text → Option PeerMeta → Bool
is_of_user none meta = true
is_of_user (some want) (some meta) = opt_text_eq meta.user_id (some want)
is_of_user (some want) none = false

abbrev pub peer_info : Text × PeerRecord → PeerInfo
peer_info (peer_id, rec) = record {
  peer_id = peer_id;
  addrs = rec.addrs;
  meta = rec.meta;
  last_seen_unix = rec.last_seen_unix;
}

unfoldable pub list_peers : TrackerState → Option Text → List PeerInfo
unfolding is_of_user
list_peers state user_id =
    map peer_info (keep_if (λ (id, rec). is_of_user user_id rec.meta) state.peers)

abbrev pub Handled : Type 0
Handled = Result Response × TrackerState

module _ ⦃api : TrackerApi⦄ (state : TrackerState) (ttl_sec : ℕ) (now : ℤ) where
  register_parsed : Option RegisterRequest → Handled
  register_parsed none = (err (anyhow "parse register request json"), state)
  register_parsed (some reg) =
      if is_empty (trim reg.peer_id)
      then (ok (respond_text 400 (codes "peer_id required\n")), state)
      else elim (api.parse_peer_id (trim reg.peer_id)) [
        | none ↦ (ok (respond_text 400 (codes "invalid peer_id\n")), state)
        | some peer_id ↦
            (ok (register_response ttl_sec), register_peer state now ttl_sec peer_id reg)
      ]

  -- POST /api/v1/peers/register
  register_route : Option (List ℕ) → Handled
  register_route none = (err (anyhow "read request body"), state)
  register_route (some body) =
      let buf = take (max_request_body_bytes + 1) body in
      if ltb max_request_body_bytes (length buf)
      then (ok (respond_text 413 (codes "payload too large\n")), state)
      else register_parsed (api.parse_register buf)

  list_now : Option Text → Handled
  list_now user_id =
      let pruned = prune_expired state now ttl_sec in
      (ok (list_response (list_peers pruned user_id)), pruned)

  decoded : Option Text → Handled
  decoded none = list_now none
  decoded (some v) = elim (api.url_decode v) [
    | none ↦ (err (anyhow "decode user_id query"), state)
    | some user_id ↦ list_now (some user_id)
  ]

  -- GET /api/v1/peers
  list_route : Option Text → Handled
  list_route none = list_now none
  list_route (some query) = decoded (query_get query (codes "user_id"))

  route_api : Text → Text → Option Text → Option (List ℕ) → Handled
  route_api method path query body =
      if text_eq method (codes "GET") && text_eq path (codes "/api/v1/ping")
      then (ok (respond_text 200 (codes "ok\n")), state)
      else if text_eq method (codes "POST") && text_eq path (codes "/api/v1/peers/register")
      then register_route body
      else if text_eq method (codes "GET") && text_eq path (codes "/api/v1/peers")
      then list_route query
      else (ok (respond_text 404 (codes "not found\n")), state)

  -- The path and the query of a URL.
  route_url : Request → Option (Text × Text) → Handled
  route_url req none = route_api req.method req.url none req.body
  route_url req (some (path, query)) = route_api req.method path (some query) req.body

  unfoldable pub route_http_request : Option Text → Request → Handled
  unfolding register_parsed register_route list_now decoded list_route route_api route_url
      is_refused
  route_http_request token req =
      if is_refused token req
      then (ok (respond_text 401 (codes "unauthorized\n")), state)
      else route_url req (split_once 63 req.url)

-- An error is answered by 500.
answered : Result Response → Response
answered (ok response) = response
answered (err e) = error_response e

-- The requests that come in, each with the time at which it is handled.
unfoldable pub serve_requests :
    ⦃api : TrackerApi⦄
    → TrackerState
    → ℕ
    → Option Text
    → List (Request × ℤ)
    → List Response × TrackerState
unfolding answered route_http_request
serve_requests state ttl_sec token [] = ([], state)
serve_requests state ttl_sec token ((req, now) ∷ reqs) =
    let (result, state') = route_http_request state ttl_sec now token req in
    let (responses, last) = serve_requests state' ttl_sec token reqs in
    (answered result ∷ responses, last)
