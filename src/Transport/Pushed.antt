-- ===== src/Transport/Pushed.antt =====
-- src/transport.rs: a push over HTTP to a server that stores it, with its retries.
use rustory.Prelude.{
  ℕ, zero, suc, ◌+◌, ◌≤◌, ◌≡◌, ◌⊎◌, ◌∙◌, refl, sym, ap, Text, codes, Bool, true, false, Option,
  none, some, List, [], ◌∷◌, ◌++◌, ◌||◌, inl, inr, arith, length, take, ltb, text_eq, Bool-cases,
}
use mathlib.Core.Path.{subst}
use rustory.Prelude.Words.{split_once, trim_end_matches}
use rustory.Errors.{Result, ok, ◌>>=◌}
use rustory.Core.{Entry, TimeApi}
use rustory.HttpRetry.{Answer, reply, failed, RetryRun, request_with_retry}
use rustory.HttpRetry as Http
use rustory.HttpRetry.Keeps.{request_with_retry-IsKept, IsKeeping}
use rustory.Storage.Schema.{Sqlite, LocalStore}
use rustory.Storage.Entries.{insert_entries_with_stats}
use rustory.Storage.Entries.Ids.{ids_of, batch_ids, insert_entries_union}
use rustory.Sync.Push.Delivered.{IsSink}
use rustory.Transport.{
  Request, EntriesJson, array, Handled, answered, route_http_request, route_url, route_api,
  post_entries, post_parsed,
}
use rustory.Transport.Client.{WireJson, Web, body_of, http_push_batch}
use rustory.Transport.Remote.{IsReplyTo}

abbrev pub post_request : List ℕ → Request
post_request body = record {
  method = codes "POST";
  url = codes "/api/v1/entries";
  body = some body;
}

ltb→le : (a b : ℕ) → ltb a b ≡ false → b ≤ a
ltb→le a b h = ground arith

take_all : (n : ℕ) (body : List ℕ) → length (take (suc n) body) ≤ n → take (suc n) body ≡ body
take_all n [] h = refl
take_all zero (x ∷ body) h = absurd (omega (arith, h))
take_all (suc n) (x ∷ body) h = ap (λ l. x ∷ l) (take_all n body (omega (arith, h)))

module _ {T : Type 0} ⦃time : TimeApi T⦄ ⦃sql : Sqlite⦄ ⦃json : EntriesJson T⦄ where
  -- The server stores the entries, or it changes nothing and its answer is one of an error.
  abbrev IsPosted : LocalStore → List (Entry T) → Handled T → Type 0
  IsPosted store es handled =
      (handled.1 ≡ (insert_entries_with_stats store es).0)
      ⊎ ((handled.1 ≡ store)
          × ((wire : WireJson T) (v : Option Text)
              → IsReplyTo ⦃wire = wire⦄ (answered handled.0) v
              → ⊥))

  post_request-IsPosted :
      (store : LocalStore) (body : List ℕ) (es : List (Entry T))
      → json.from_slice body ≡ some (array es)
      → IsPosted store es (route_http_request store (post_request body))
  unfolding route_http_request route_url route_api post_entries post_parsed split_once text_eq
      answered
  post_request-IsPosted store body es read =
      elim (Bool-cases (ltb 16_777_216 (length (take (16_777_216 + 1) body)))) [
        | inl large ↦ rw large (inr (refl, λ wire v h. omega (arith, h.0)))
        | inr fits ↦
            let whole : take (16_777_216 + 1) body ≡ body =
              take_all 16_777_216 body (ltb→le 16_777_216 _ fits) in
            rw (fits, post_parsed, whole, read) (inl refl)
      ]

-- The ids of a store between those of an earlier one and those of the earlier one and a batch.
abbrev IsBetween : {T : Type 0} → LocalStore → List (Entry T) → LocalStore → Type 0
IsBetween before es store =
    (id : Text)
    → (ids_of before id ≡ true → ids_of store id ≡ true)
      × (ids_of store id ≡ true → (ids_of before id || batch_ids es id) ≡ true)

abbrev IsStored : {T : Type 0} → List (Entry T) → LocalStore → Type 0
IsStored es store = (id : Text) → batch_ids es id ≡ true → ids_of store id ≡ true

-- Behind the URL is a server whose store is a part of the state: a POST does not arrive, so that nothing
-- is stored and no reply comes, or it is handled, and a reply, if one comes, is one to its response.
abbrev pub IsPostServed :
    (T : Type 0)
    → {R : Type 0} → ⦃time : TimeApi T⦄ → ⦃sql : Sqlite⦄ → ⦃json : EntriesJson T⦄
    → ⦃wire : WireJson T⦄ → Web R
    → Text
    → (R → LocalStore)
    → Type 0
IsPostServed T {R} web base store_of =
    (body : List ℕ) (remote : R) (connect read : ℕ)
    → let post = web.post (base ++ codes "/api/v1/entries") body remote connect read in
      let handled = route_http_request {T = T} (store_of remote) (post_request body) in
      ((store_of post.1 ≡ store_of remote) × ((v : Option Text) → post.0 ≡ reply v → ⊥))
      ⊎ ((store_of post.1 ≡ handled.1)
          × ((v : Option Text) → post.0 ≡ reply v → IsReplyTo (answered handled.0) v))

between_union :
    (a b c d : Bool)
    → d ≡ (c || b)
    → (a ≡ true → c ≡ true)
    → (c ≡ true → (a || b) ≡ true)
    → (a ≡ true → d ≡ true) × (d ≡ true → (a || b) ≡ true)
between_union a b c d e f g = (λ h. ground (arith, e, f, h), λ h. ground (arith, e, g, h))

stored_union : (b c d : Bool) → d ≡ (c || b) → b ≡ true → d ≡ true
stored_union b c d e h = ground (arith, e, h)

module _ {T R : Type 0} ⦃time : TimeApi T⦄ ⦃sql : Sqlite⦄ ⦃json : EntriesJson T⦄ ⦃wire : WireJson T⦄
    (web : Web R) (base : Text) (store_of : R → LocalStore) where
  post-IsKeeping :
      (before : LocalStore) (es : List (Entry T))
      → IsPostServed T web base store_of
      → json.from_slice (wire.entries_body es) ≡ some (array es)
      → IsKeeping Http.transport
          (web.post (base ++ codes "/api/v1/entries") (wire.entries_body es))
          (λ r. IsBetween before es (store_of r))
          (λ r. IsStored es (store_of r))
  post-IsKeeping before es served read remote connect time_out h =
      elim (served (wire.entries_body es) remote connect time_out) [
        | inl (same, silent) ↦
            (subst (IsBetween before es) (sym same) h, λ v e. absurd (silent v e))
        | inr (now, replied) ↦
            elim (post_request-IsPosted (store_of remote) (wire.entries_body es) es read) [
              | inl stored ↦
                  let now_store =
                    store_of
                      (web.post (base ++ codes "/api/v1/entries") (wire.entries_body es) remote
                        connect time_out).1 in
                  let ids : (id : Text)
                      → ids_of now_store id ≡ (ids_of (store_of remote) id || batch_ids es id) =
                    λ id.
                      ap (λ s. ids_of s id) (now ∙ stored)
                      ∙ (insert_entries_union (store_of remote) es [] id).0 in
                  (
                    λ id.
                        between_union (ids_of before id) (batch_ids es id) _ _ (ids id) (h id).0
                          (h id).1,
                    λ v e id b. stored_union (batch_ids es id) _ _ (ids id) b,
                  )
              | inr (same, refused) ↦ (
                subst (IsBetween before es) (sym (now ∙ same)) h,
                λ v e. absurd (refused wire v (replied v e)),
              )
            ]
      ]

abbrev push_result : Text → Option (Answer (Option Text)) → Result (Unit {0})
push_result what answer = body_of what answer >>= λ body. ok tt

replied_well :
    (what : Text) (answer : Option (Answer (Option Text)))
    → push_result what answer ≡ ok tt
    → (v : Option Text) × (answer ≡ some (reply v))
unfolding body_of
replied_well what none h = absurd (cc)
replied_well what (some (failed e)) h = absurd (cc)
replied_well what (some (reply none)) h = absurd (cc)
replied_well what (some (reply (some text))) h = (some text, refl)

module _ {T R : Type 0} ⦃time : TimeApi T⦄ ⦃sql : Sqlite⦄ ⦃json : EntriesJson T⦄
    ⦃wire : WireJson T⦄ where
  pushed_run :
      (web : Web R) (peer_base_url : Text) (store_of : R → LocalStore) (remote : R)
      (es : List (Entry T))
      → IsPostServed T web (trim_end_matches 47 peer_base_url) store_of
      → json.from_slice (wire.entries_body es) ≡ some (array es)
      → IsBetween (store_of remote) es (store_of (http_push_batch web peer_base_url remote es).1)
        × ((http_push_batch web peer_base_url remote es).0 ≡ ok tt
            → IsStored es (store_of (http_push_batch web peer_base_url remote es).1))
  unfolding http_push_batch
  pushed_run web peer_base_url store_of remote es served read =
      let base = trim_end_matches 47 peer_base_url in
      let before = store_of remote in
      let send = web.post (base ++ codes "/api/v1/entries") (wire.entries_body es) in
      let kept =
        request_with_retry-IsKept Http.transport send (λ r. IsBetween before es (store_of r))
          (λ r. IsStored es (store_of r)) (post-IsKeeping web base store_of before es served read)
          remote (λ id. (λ h. h, λ h. ground (arith, h))) in
      (
        kept.0,
        λ good.
            let (v, replied) =
              replied_well (codes "POST " ++ (base ++ codes "/api/v1/entries"))
                (request_with_retry Http.transport send remote).result good in
            kept.1 v replied,
      )

  -- Where a server stands behind the URL, whose answers and whose requests may be lost, and reads back
  -- the entries that a push writes: however often a push is tried again, it loses no entry id of the
  -- server's store and adds none but those of its batch, and where it ends well all of these are
  -- stored.
  pub http_push_batch-IsSink :
      (web : Web R) (peer_base_url : Text) (store_of : R → LocalStore)
      → IsPostServed T web (trim_end_matches 47 peer_base_url) store_of
      → ((es : List (Entry T)) → json.from_slice (wire.entries_body es) ≡ some (array es))
      → IsSink (http_push_batch {T = T} web peer_base_url) (λ r. ids_of (store_of r))
  http_push_batch-IsSink web peer_base_url store_of served read = record {
    accepts = λ remote es id good.
        (pushed_run web peer_base_url store_of remote es served (read es)).1 good id;
    keeps =
        λ remote es id. ((pushed_run web peer_base_url store_of remote es served (read es)).0 id).0;
    only =
        λ remote es id. ((pushed_run web peer_base_url store_of remote es served (read es)).0 id).1;
  }
