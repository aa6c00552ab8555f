-- ===== src/Tests/Tracker.antt =====
-- The theorems on the tracker, applied.
use rustory.Prelude.{
  ℤ, pos, ◌-ℤ◌, codes, none, some, [], ◌∷◌, ◌≡◌, refl, map, text_eq, opt_text_eq, if◌then◌else◌,
  is_empty,
}
use rustory.Prelude.Words.{
  trim, drop_back, drop_front, trim_end, is_whitespace, strip_prefix, split_once, split_on,
}
use rustory.Tracker.{
  PeerMeta, RegisterRequest, TrackerState, TrackerApi, Request, respond_text, register_response,
  list_response, is_fresh, prune_expired, insert_peer, register_peer, list_peers, is_of_user,
  route_http_request, serve_requests, is_authorized, query_get, header_value, trimmed_addrs,
}
use rustory.Tracker.Peers.{UniquePeers, lookup_peer, unexpired, lookup_peer-register_peer}
use rustory.Tracker.Routes.{serve_requests_anonymous}

abbrev meta : PeerMeta
meta = record { device_id = none; hostname = none; user_id = some (codes "u1"); version = none }

abbrev reg : RegisterRequest
reg = record {
  peer_id = codes " p1";
  addrs = codes " /ip4/10.0.0.1" ∷ codes "  " ∷ [];
  meta = some meta;
}

-- Every body that is not empty is this registration; peer ids and queries stand for themselves.
instance abbrev literal : TrackerApi
literal = record {
  equiv = text_eq;
  parse_register = λ body. if is_empty body then none else some reg;
  parse_peer_id = some;
  url_decode = some;
}

abbrev nobody : TrackerState
nobody = record { peers = [] }

abbrev known : TrackerState
known = register_peer nobody (pos 100) 60 (codes "p1") reg

abbrev registering : Request
registering = record {
  method = codes "POST";
  url = codes "/api/v1/peers/register";
  headers = (codes "Authorization", codes "Bearer t") ∷ [];
  body = some (1 ∷ []);
}

abbrev listing : Request
listing = record {
  method = codes "GET";
  url = codes "/api/v1/peers?a&user_id=u1";
  headers = (codes "X-Rustory-Token", codes " t ") ∷ [];
  body = some [];
}

abbrev unsigned : Request
unsigned = record {
  method = codes "GET";
  url = codes "/api/v1/peers";
  headers = [];
  body = some [];
}

lookup_peer-register_peer_example :
    (lookup_peer (codes "p1") (register_peer known (pos 130) 60 (codes "p2") reg).peers ≡ (
      if text_eq (codes "p2") (codes "p1")
      then some
          (record { addrs = trimmed_addrs reg.addrs; meta = some meta; last_seen_unix = pos 130 })
      else unexpired (pos 130) 60 (lookup_peer (codes "p1") known.peers)))
    × UniquePeers (register_peer known (pos 130) 60 (codes "p2") reg).peers
lookup_peer-register_peer_example =
    lookup_peer-register_peer known (pos 130) 60 (codes "p2") reg (codes "p1")
      (lookup_peer-register_peer nobody (pos 100) 60 (codes "p1") reg (codes "p1") tt).1

-- A registration and two listings, the second one after the time to live.
served :
    (serve_requests nobody 60 (some (codes "t")) (
      (registering, pos 100)
      ∷ (listing, pos 160)
      ∷ (unsigned, pos 160)
      ∷ (listing, pos 161)
      ∷ [])).0
    ≡ register_response 60
      ∷ list_response (
          record {
            peer_id = codes "p1";
            addrs = codes "/ip4/10.0.0.1" ∷ [];
            meta = some meta;
            last_seen_unix = pos 100;
          }
          ∷ [])
      ∷ respond_text 401 (codes "unauthorized\n")
      ∷ list_response []
      ∷ []
unfolding serve_requests route_http_request register_peer prune_expired insert_peer list_peers
    is_of_user is_fresh is_authorized header_value query_get trim trim_end drop_back drop_front
    is_whitespace strip_prefix split_once split_on text_eq ◌-ℤ◌ opt_text_eq
served = refl

serve_requests_anonymous_example :
    serve_requests known 60 (some (codes "t")) ((unsigned, pos 130) ∷ []) ≡ (
      map
          (λ (r : Request × ℤ). respond_text 401 (codes "unauthorized\n"))
          ((unsigned, pos 130) ∷ []),
      known,
    )
unfolding header_value trim trim_end drop_front drop_back is_whitespace
serve_requests_anonymous_example =
    serve_requests_anonymous known 60 (codes "t") ((unsigned, pos 130) ∷ []) refl ((refl, refl), tt)
