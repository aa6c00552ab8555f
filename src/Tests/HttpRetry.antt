-- ===== src/Tests/HttpRetry.antt =====
-- The theorems on requests with retries, applied.
use rustory.Prelude.{ℕ, zero, suc, ◌≡◌, refl, some, [], ◌∷◌}
use rustory.HttpRetry.{
  status, is_retryable_error, reply, failed, Request, tracker, transport, millis, retry_loop,
  retry_answer, request_with_retry, exp_duration, mul_or_base, shift_factor,
}
use rustory.HttpRetry.Attempts.{IsRetryRun, request_with_retry-IsRetryRun}

-- A server that is busy a number of times.
abbrev busy : Request ℕ ℕ
busy zero connect read = (reply 7, zero)
busy (suc n) connect read = (failed (status 503), n)

request_with_retry-IsRetryRun_example : IsRetryRun tracker 3 0 (request_with_retry tracker busy 2)
request_with_retry-IsRetryRun_example = request_with_retry-IsRetryRun tracker busy 2

busy_twice_replies : (request_with_retry tracker busy 2).result ≡ some (reply 7)
unfolding request_with_retry retry_loop retry_answer is_retryable_error
busy_twice_replies = refl

busy_twice_sleeps : (request_with_retry transport busy 2).sleeps ≡ millis 200 ∷ millis 400 ∷ []
unfolding request_with_retry retry_loop retry_answer is_retryable_error exp_duration mul_or_base
    shift_factor
busy_twice_sleeps = refl

busy_thrice_fails : (request_with_retry tracker busy 3).result ≡ some (failed (status 503))
unfolding request_with_retry retry_loop retry_answer is_retryable_error
busy_thrice_fails = refl
