-- ===== src/Tests/Pushed.antt =====
-- The theorem on pushes over HTTP, applied to a network that loses the first reply.
use rustory.Prelude.{
  Text, codes, Bool, false, Option, none, some, List, [], ◌≡◌, refl, ap, ℤ, if◌then◌else◌,
  Bool-cases, inl, inr,
}
use rustory.Prelude.Words.{trim_end_matches}
use rustory.Errors.{Result, ok, err}
use rustory.Core.{Entry}
use rustory.HttpRetry.{Answer, reply, failed, failure, status}
use rustory.Storage.Schema.{LocalStore}
use rustory.Storage.Entries.Ids.{ids_of}
use rustory.Sync.Push.Delivered.{IsSink}
use rustory.Transport.{
  Response, respond_text, entries_response, push_response, error_response, EntriesRequest, array,
  EntriesJson, answered, route_http_request,
}
use rustory.Transport.Client.{Web, http_push_batch}
use rustory.Transport.Remote.{IsReplyTo}
use rustory.Transport.Pushed.{post_request, IsPostServed, http_push_batch-IsSink}
use rustory.Tests.Wire.{wire, many, an_entry, whole}
use rustory.Tests.{seconds, counting}

abbrev as_request : Option (List (Entry ℤ)) → Option (EntriesRequest ℤ)
as_request none = none
as_request (some es) = some (array es)

instance abbrev entries_json : EntriesJson ℤ
entries_json = record { from_slice = λ body. as_request (whole ((many an_entry).read body)) }

read_entries :
    (es : List (Entry ℤ)) → entries_json.from_slice (wire.entries_body es) ≡ some (array es)
read_entries es = ap (λ p. as_request (whole p)) ((many an_entry).read-write es [])

abbrev reply_of : Result (Response ℤ) → Answer (Option Text)
reply_of (ok (push_response inserted ignored)) = reply (some (codes "{}"))
reply_of (ok (respond_text code body)) = failed (status code)
reply_of (ok (entries_response batch)) = failed (status 500)
reply_of (ok (error_response e)) = failed (status 500)
reply_of (err e) = failed (status 500)

reply_of-IsReplyTo :
    (r : Result (Response ℤ)) (v : Option Text) → reply_of r ≡ reply v → IsReplyTo (answered r) v
unfolding answered
reply_of-IsReplyTo (ok (push_response inserted ignored)) v e = tt
reply_of-IsReplyTo (ok (respond_text code body)) v e = absurd (cc)
reply_of-IsReplyTo (ok (entries_response batch)) v e = absurd (cc)
reply_of-IsReplyTo (ok (error_response error)) v e = absurd (cc)
reply_of-IsReplyTo (err error) v e = absurd (cc)

-- The state is whether the next reply gets lost, and the store of the server.
abbrev lossy : Web (Bool × LocalStore)
lossy = record {
  get = λ url r connect read. (failed failure, r);
  post = λ url body r connect read.
      let handled = route_http_request {T = ℤ} r.1 (post_request body) in
      (if r.0 then failed failure else reply_of handled.0, (false, handled.1));
  string_limit = 10_485_760;
}

lossy-IsPostServed : (base : Text) → IsPostServed ℤ lossy base (λ r. r.1)
lossy-IsPostServed base body r connect read = inr (
  refl,
  λ v e. elim (Bool-cases r.0) [
    | inl lost ↦ absurd (cc (rw lost at e))
    | inr kept ↦ reply_of-IsReplyTo _ v (rw kept at e)
  ],
)

http_push_batch-IsSink_example :
    IsSink (http_push_batch {T = ℤ} lossy (codes "http://f/")) (λ r. ids_of r.1)
http_push_batch-IsSink_example =
    http_push_batch-IsSink lossy (codes "http://f/") (λ r. r.1)
      (lossy-IsPostServed (trim_end_matches 47 (codes "http://f/"))) read_entries
