-- ===== src/Tracker/Routes.antt =====
-- src/tracker.rs: whom a listing shows, and requests without the token.
use rustory.Prelude.{
  ◌<◌, ◌⊎◌, ℕ, ℤ, ◌-ℤ◌, ◌≤ℤ◌, Text, codes, true, false, Option, none, some, List, [], ◌∷◌, ◌≡◌,
  refl, is_empty, map, All, as_i64,
}
use rustory.Prelude.Words.{trim, split_once}
use rustory.Tracker.{
  query_get, PeerMeta, header_value, PeerRecord, PeerInfo, TrackerState, TrackerApi, Request,
  respond_text, peer_info, is_refused, is_authorized, route_http_request, serve_requests,
}

abbrev pub IsIn : {A : Type 0} → A → List A → Type 0
IsIn x [] = ⊥
IsIn x (y ∷ ys) = (y ≡ x) ⊎ IsIn x ys

-- The peer has told that it belongs to the user, where one is asked for.
abbrev pub IsOfUser : Option Text → Option PeerMeta → Type 0
IsOfUser none meta = Unit
IsOfUser (some want) meta = (m : PeerMeta) × (meta ≡ some m) × (m.user_id ≡ some want)

-- A peer of the table, as the answer to a listing shows it.
abbrev pub IsListed : TrackerState → ℤ → ℕ → Option Text → PeerInfo → Type 0
IsListed state now ttl_sec user_id peer =
    (0 < ttl_sec)
    × ((row : Text × PeerRecord) × IsIn row state.peers
        × (peer_info row ≡ peer)
        × ((now -ℤ row.1.last_seen_unix) ≤ℤ as_i64 ttl_sec)
        × IsOfUser user_id row.1.meta)

-- The request is a listing, of the peers of the user or of all of them.
pub data Asks ⦃api : TrackerApi⦄ (req : Request) : Option Text → Type 0 where
  plain :
      req.method ≡ codes "GET"
      → split_once 63 req.url ≡ none
      → req.url ≡ codes "/api/v1/peers"
      → Asks req none
  unfiltered :
      (query : Text)
      → req.method ≡ codes "GET"
      → split_once 63 req.url ≡ some (codes "/api/v1/peers", query)
      → query_get query (codes "user_id") ≡ none
      → Asks req none
  filtered :
      (query value want : Text)
      → req.method ≡ codes "GET"
      → split_once 63 req.url ≡ some (codes "/api/v1/peers", query)
      → query_get query (codes "user_id") ≡ some value
      → api.url_decode value ≡ some want
      → Asks req (some want)

module _ ⦃api : TrackerApi⦄ where
  -- No header that carries the token, whatever the rest of the request.
  abbrev pub IsAnonymous : Request × ℤ → Type 0
  IsAnonymous (req, now) =
      (header_value req.headers (codes "Authorization") ≡ none)
      × (header_value req.headers (codes "X-Rustory-Token") ≡ none)

  anonymous-refused :
      (token : Text) (req : Request) (now : ℤ)
      → is_empty (trim token) ≡ false
      → IsAnonymous (req, now)
      → is_refused (some token) req ≡ true
  unfolding is_refused is_authorized
  anonymous-refused token req now h a = rw (h, a.0, a.1) refl

  -- With a token that is not blank, requests without the two headers are all answered by 401, and
  -- change nothing.
  pub serve_requests_anonymous :
      (state : TrackerState) (ttl_sec : ℕ) (token : Text) (reqs : List (Request × ℤ))
      → is_empty (trim token) ≡ false
      → All IsAnonymous reqs
      → serve_requests state ttl_sec (some token) reqs
        ≡ (map (λ r. respond_text 401 (codes "unauthorized\n")) reqs, state)
  unfolding serve_requests route_http_request
  serve_requests_anonymous state ttl_sec token [] h a = refl
  serve_requests_anonymous state ttl_sec token ((req, now) ∷ reqs) h a =
      rw (anonymous-refused token req now h a.0, route_http_request)
        (rw (serve_requests_anonymous state ttl_sec token reqs h a.1) refl)
