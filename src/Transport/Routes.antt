-- ===== src/Transport/Routes.antt =====
-- src/transport.rs: what the requests of other devices do to the store.
use rustory.Prelude.{
  ℕ, ◌+◌, Text, codes, Bool, true, false, Option, none, some, List, [], ◌∷◌, length, take, ltb,
  text_eq, if◌then◌else◌, ◌&&◌,
}
use rustory.Prelude.Words.{split_once}
use rustory.Errors.{Result}
use rustory.Core.{TimeApi}
use rustory.Storage.Schema.{Sqlite, LocalStore}
use rustory.Storage.Entries.Invariant.{IsOrdered}
use rustory.Transport.{
  Request, EntriesRequest, EntriesJson, Response, Handled, entries_of_request, get_entries,
  post_parsed, post_entries, route_api, route_url, route_http_request, serve_http,
}
use rustory.Storage.Entries.Extended.{
  IsExtended, IsExtended-refl, IsExtended-trans, insert_entries-IsExtended,
}

record IsHandled {T : Type 0} (db : LocalStore) (handled : Handled T) : Type 0 where
  extended : IsExtended db handled.1

module _ {T : Type 0} ⦃time : TimeApi T⦄ ⦃sql : Sqlite⦄ ⦃json : EntriesJson T⦄ (store : LocalStore)
    (w : IsOrdered store) where
  unchanged-IsHandled : (r : Result (Response T)) → IsHandled {T = T} store (r, store)
  unchanged-IsHandled r = record { extended = IsExtended-refl store w }

  parsed-IsHandled :
      (body : Option (EntriesRequest T)) → IsHandled {T = T} store (post_parsed store body)
  unfolding post_parsed
  parsed-IsHandled none = unchanged-IsHandled _
  parsed-IsHandled (some body) = record {
    extended = insert_entries-IsExtended store (entries_of_request body) w;
  }

  if-IsHandled :
      (b : Bool) (x y : Handled T)
      → IsHandled {T = T} store x
      → IsHandled {T = T} store y
      → IsHandled {T = T} store (if b then x else y)
  if-IsHandled true x y hx hy = hx
  if-IsHandled false x y hx hy = hy

  post-IsHandled : (body : Option (List ℕ)) → IsHandled {T = T} store (post_entries store body)
  unfolding post_entries
  post-IsHandled none = unchanged-IsHandled _
  post-IsHandled (some body) =
      if-IsHandled (ltb 16_777_216 (length (take (16_777_216 + 1) body))) (_, store) _
        (unchanged-IsHandled _) (parsed-IsHandled (json.from_slice (take (16_777_216 + 1) body)))

  api-IsHandled :
      (method path : Text) (query : Option Text) (body : Option (List ℕ))
      → IsHandled {T = T} store (route_api store method path query body)
  unfolding route_api
  api-IsHandled method path query body =
      if-IsHandled (text_eq method (codes "GET") && text_eq path (codes "/api/v1/ping")) (_, store)
        _ (unchanged-IsHandled _)
        (if-IsHandled (text_eq method (codes "GET") && text_eq path (codes "/api/v1/entries"))
          (_, store) _ (unchanged-IsHandled (get_entries store query))
          (if-IsHandled (text_eq method (codes "POST") && text_eq path (codes "/api/v1/entries")) _
            (_, store) (post-IsHandled body) (unchanged-IsHandled _)))

  url-IsHandled :
      (req : Request) (parts : Option (Text × Text))
      → IsHandled {T = T} store (route_url store req parts)
  unfolding route_url
  url-IsHandled req none = api-IsHandled req.method req.url none req.body
  url-IsHandled req (some (path, query)) = api-IsHandled req.method path (some query) req.body

module _ (T : Type 0) ⦃time : TimeApi T⦄ ⦃sql : Sqlite⦄ ⦃json : EntriesJson T⦄ where
  route-IsExtended :
      (store : LocalStore) (req : Request)
      → IsOrdered store
      → IsExtended store (route_http_request {T = T} store req).1
  unfolding route_http_request
  route-IsExtended store req w =
      (url-IsHandled {T = T} store w req (split_once 63 req.url)).extended

  -- Whatever requests come in, the rows of a store with rising keys and unique ids stay in place,
  -- new ones come behind them, keys still rise and no entry id stands twice, and the tables of peers do not change.
  pub serve_http-IsExtended :
      (store : LocalStore) (reqs : List Request)
      → IsOrdered store
      → IsExtended store (serve_http {T = T} store reqs).1
  unfolding serve_http
  serve_http-IsExtended store [] w = IsExtended-refl store w
  serve_http-IsExtended store (req ∷ reqs) w =
      let first = route-IsExtended store req w in
      IsExtended-trans store (route_http_request {T = T} store req).1 _ first
        (serve_http-IsExtended (route_http_request {T = T} store req).1 reqs first.ordered)
