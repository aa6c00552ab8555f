-- ===== src/HttpRetry/Keeps.antt =====
-- src/http_retry.rs: the far side under the attempts of `request_with_retry`.
use rustory.Prelude.{
  ℕ, zero, suc, ◌+◌, ◌≡◌, refl, Option, none, some, leb, not, ◌||◌, Bool-cases, inl, inr,
}
use rustory.HttpRetry.{
  RetryPolicy, HttpError, is_retryable_error, Answer, reply, failed, RetryRun, Request,
  connect_timeout, read_timeout, retry_answer, retry_loop, request_with_retry, at_least_one,
}

module _ {R A : Type 0} (policy : RetryPolicy) (f : Request R A) (Inv Done : R → Type 0) where
  -- A call keeps `Inv`, and one that replies leads to `Done`.
  abbrev pub IsKeeping : Type 0
  IsKeeping =
      (remote : R) (connect read : ℕ)
      → Inv remote
      → Inv (f remote connect read).1
        × ((v : A) → (f remote connect read).0 ≡ reply v → Done (f remote connect read).1)

  abbrev pub IsKept : RetryRun R A → Type 0
  IsKept run = Inv run.remote × ((v : A) → run.result ≡ some (reply v) → Done run.remote)

  answer-IsKept :
      (attempts attempt : ℕ) (again : Option HttpError → R → RetryRun R A) (a : Answer A)
      (remote : R)
      → Inv remote
      → ((v : A) → a ≡ reply v → Done remote)
      → ((err : Option HttpError) (r : R) → Inv r → IsKept (again err r))
      → IsKept (retry_answer policy attempts attempt again a remote)
  unfolding retry_answer
  answer-IsKept attempts attempt again (reply w) remote h k g = (h, λ v e. k w refl)
  answer-IsKept attempts attempt again (failed err) remote h k g =
      elim (Bool-cases (not (is_retryable_error err) || leb attempts (attempt + 1))) [
        | inl end ↦ rw end (h, λ v e. absurd (cc))
        | inr more ↦ rw more (g (some err) remote h)
      ]

  loop-IsKept :
      IsKeeping
      → (attempts left attempt : ℕ) (remote : R) (last_err : Option HttpError) → Inv remote
      → IsKept (retry_loop policy attempts f left attempt last_err remote)
  unfolding retry_loop
  loop-IsKept step attempts zero attempt remote none h = (h, λ v e. absurd (cc))
  loop-IsKept step attempts zero attempt remote (some err) h = (h, λ v e. absurd (cc))
  loop-IsKept step attempts (suc left) attempt remote last_err h =
      let kept = step remote (connect_timeout policy attempt) (read_timeout policy attempt) h in
      answer-IsKept attempts attempt
        (λ err r. retry_loop policy attempts f left (attempt + 1) err r)
        (f remote (connect_timeout policy attempt) (read_timeout policy attempt)).0
        (f remote (connect_timeout policy attempt) (read_timeout policy attempt)).1 kept.0 kept.1
        (λ err r k. loop-IsKept step attempts left (attempt + 1) r err k)

  -- What each call keeps the attempts keep, and where they reply, what a reply leads to holds.
  pub request_with_retry-IsKept :
      IsKeeping → (remote : R) → Inv remote → IsKept (request_with_retry policy f remote)
  unfolding request_with_retry
  request_with_retry-IsKept step remote h =
      loop-IsKept step (at_least_one policy.attempts) (at_least_one policy.attempts) 0 remote none h
