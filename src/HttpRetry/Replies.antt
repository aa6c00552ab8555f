-- ===== src/HttpRetry/Replies.antt =====
-- src/http_retry.rs: where the reply of `request_with_retry` comes from.
use rustory.Prelude.{
  ℕ, zero, suc, ◌+◌, ◌<◌, ◌≡◌, Option, none, some, arith, leb, not, ◌||◌, Bool-cases, inl, inr,
}
use rustory.HttpRetry.{
  RetryPolicy, HttpError, is_retryable_error, Answer, reply, failed, RetryRun, Request,
  connect_timeout, read_timeout, retry_answer, retry_loop, request_with_retry, at_least_one,
}

module _ {R A : Type 0} (policy : RetryPolicy) (f : Request R A) (P : A → Type 0) where
  -- Every reply of the closure has `P`.
  abbrev IsReplying : Type 0
  IsReplying = (remote : R) (connect read : ℕ) (v : A) → (f remote connect read).0 ≡ reply v → P v

  abbrev IsReplied : RetryRun R A → Type 0
  IsReplied run = (v : A) → run.result ≡ some (reply v) → P v

  answer-IsReplied :
      (attempts attempt : ℕ) (again : Option HttpError → R → RetryRun R A) (a : Answer A)
      (remote : R)
      → ((v : A) → a ≡ reply v → P v)
      → ((err : Option HttpError) (r : R) → IsReplied (again err r))
      → IsReplied (retry_answer policy attempts attempt again a remote)
  unfolding retry_answer
  answer-IsReplied attempts attempt again (reply w) remote h k v e = h v (cc)
  answer-IsReplied attempts attempt again (failed err) remote h k v e =
      elim (Bool-cases (not (is_retryable_error err) || leb attempts (attempt + 1))) [
        | inl end ↦ absurd (let e' : some (failed err) ≡ some (reply v) = rw end at e in cc)
        | inr more ↦ k (some err) remote v (rw more at e)
      ]

  loop-IsReplied :
      IsReplying
      → (attempts left attempt : ℕ) (remote : R) → (last_err : Option HttpError)
      → IsReplied (retry_loop policy attempts f left attempt last_err remote)
  unfolding retry_loop
  loop-IsReplied h attempts zero attempt remote none v e = absurd (cc)
  loop-IsReplied h attempts zero attempt remote (some err) v e = absurd (cc)
  loop-IsReplied h attempts (suc left) attempt remote last_err v e =
      answer-IsReplied attempts attempt
        (λ err r. retry_loop policy attempts f left (attempt + 1) err r)
        (f remote (connect_timeout policy attempt) (read_timeout policy attempt)).0
        (f remote (connect_timeout policy attempt) (read_timeout policy attempt)).1
        (h remote (connect_timeout policy attempt) (read_timeout policy attempt))
        (λ err r. loop-IsReplied h attempts left (attempt + 1) r err) v e

  -- What holds of every reply that the closure gives holds of the reply that is returned.
  pub request_with_retry-IsReplied :
      IsReplying → (remote : R) → IsReplied (request_with_retry policy f remote)
  unfolding request_with_retry
  request_with_retry-IsReplied h remote =
      loop-IsReplied h (at_least_one policy.attempts) (at_least_one policy.attempts) 0 remote none

module _ {R A : Type 0} (policy : RetryPolicy) (f : Request R A) where
  first_reply :
      (attempts left : ℕ) (remote : R) (v : A) (again : Option HttpError → R → RetryRun R A)
      → (a : Answer A) (remote' : R) → a ≡ reply v
      → (retry_answer policy attempts left again a remote').result ≡ some (reply v)
  unfolding retry_answer
  first_reply attempts left remote v again (reply w) remote' e = cc
  first_reply attempts left remote v again (failed err) remote' e = absurd (cc)

  loop_reply :
      (attempts left attempt : ℕ) (remote : R) (v : A)
      → 0 < left
      → ((connect read : ℕ) → (f remote connect read).0 ≡ reply v)
      → (retry_loop policy attempts f left attempt none remote).result ≡ some (reply v)
  unfolding retry_loop
  loop_reply attempts zero attempt remote v pos_left h = absurd (omega (arith, pos_left))
  loop_reply attempts (suc left) attempt remote v pos_left h =
      first_reply attempts attempt remote v
        (λ err r. retry_loop policy attempts f left (attempt + 1) err r)
        (f remote (connect_timeout policy attempt) (read_timeout policy attempt)).0
        (f remote (connect_timeout policy attempt) (read_timeout policy attempt)).1
        (h (connect_timeout policy attempt) (read_timeout policy attempt))

  -- A closure that replies at once has its reply returned.
  pub request_with_retry-reply :
      (remote : R) (v : A)
      → ((connect read : ℕ) → (f remote connect read).0 ≡ reply v)
      → (request_with_retry policy f remote).result ≡ some (reply v)
  unfolding request_with_retry
  request_with_retry-reply remote v h =
      loop_reply (at_least_one policy.attempts) (at_least_one policy.attempts) 0 remote v
        (ground arith) h
