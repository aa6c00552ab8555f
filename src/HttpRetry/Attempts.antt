-- ===== src/HttpRetry/Attempts.antt =====
-- src/http_retry.rs: which calls `request_with_retry` makes, and what it returns.
use rustory.Prelude.{
  ℕ, zero, suc, ◌+◌, ◌<◌, ◌≡◌, refl, ap, true, Option, none, some, List, [], ◌∷◌, ◌++◌, map, arith,
  length, All, leb, Bool-cases, inl, inr,
}
use rustory.HttpRetry.{
  RetryPolicy, HttpError, is_retryable_error, Answer, reply, failed, RetryRun, Request,
  connect_timeout, read_timeout, backoff, slept, finished, followed, retry_answer, retry_loop,
  request_with_retry, at_least_one,
}

-- The timeouts of `n` calls and the pauses after `n` of them, from an attempt on.
abbrev pub timeouts_from : RetryPolicy → ℕ → ℕ → List (ℕ × ℕ)
timeouts_from policy attempt zero = []
timeouts_from policy attempt (suc n) =
    (connect_timeout policy attempt, read_timeout policy attempt)
    ∷ timeouts_from policy (attempt + 1) n

abbrev pub pauses_from : RetryPolicy → ℕ → ℕ → List ℕ
pauses_from policy attempt zero = []
pauses_from policy attempt (suc n) =
    slept (backoff policy attempt) ++ pauses_from policy (attempt + 1) n

-- After `before` failures, each of which may be tried again, the last answer settles the run: it is
-- a reply, or an error that may not be tried again, or the calls are used up.
abbrev pub IsSettled : {A : Type 0} → ℕ → ℕ → Answer A → Type 0
IsSettled left n (reply v) = Unit
IsSettled left n (failed e) = is_retryable_error e ≡ true → suc n ≡ left

pub record IsRetryRun {R A : Type 0} (policy : RetryPolicy) (left attempt : ℕ) (run : RetryRun R A)
    : Type 0 where
  pub before : List HttpError
  pub last : Answer A
  pub answers : run.answers ≡ map failed before ++ last ∷ []
  pub retryable : All (λ e. is_retryable_error e ≡ true) before
  pub result : run.result ≡ some last
  pub few : length before < left
  pub settled : IsSettled left (length before) last
  pub timeouts : run.timeouts ≡ timeouts_from policy attempt (suc (length before))
  pub sleeps : run.sleeps ≡ pauses_from policy attempt (length before)

module _ {R A : Type 0} (policy : RetryPolicy) (f : Request R A) where
  IsRetryRun-finished :
      (left attempt : ℕ) (a : Answer A) (remote : R)
      → 0 < left
      → IsSettled left 0 a
      → IsRetryRun policy left attempt
          (finished a (connect_timeout policy attempt, read_timeout policy attempt) remote)
  IsRetryRun-finished left attempt a remote h s = record {
    before = [];
    last = a;
    answers = refl;
    retryable = tt;
    result = refl;
    few = h;
    settled = s;
    timeouts = refl;
    sleeps = refl;
  }

  IsSettled-later :
      (left n : ℕ) (a : Answer A) → IsSettled left n a → IsSettled (suc left) (suc n) a
  IsSettled-later left n (reply v) s = tt
  IsSettled-later left n (failed e) s = λ h. ap suc (s h)

  IsRetryRun-followed :
      (left attempt : ℕ) (e : HttpError) (rest : RetryRun R A)
      → is_retryable_error e ≡ true
      → IsRetryRun policy left (attempt + 1) rest
      → IsRetryRun policy (suc left) attempt (
          followed
            (failed e)
            (connect_timeout policy attempt, read_timeout policy attempt)
            (backoff policy attempt)
            rest)
  IsRetryRun-followed left attempt e rest h r = record {
    before = e ∷ r.before;
    last = r.last;
    answers = ap (λ l. failed e ∷ l) r.answers;
    retryable = (h, r.retryable);
    result = r.result;
    few = omega (arith, r.few);
    settled = IsSettled-later left (length r.before) r.last r.settled;
    timeouts =
        ap (λ l. (connect_timeout policy attempt, read_timeout policy attempt) ∷ l) r.timeouts;
    sleeps = ap (λ l. slept (backoff policy attempt) ++ l) r.sleeps;
  }

  answer-IsRetryRun :
      (attempts left attempt : ℕ) (again : Option HttpError → R → RetryRun R A) (a : Answer A)
      (remote : R)
      → suc left + attempt ≡ attempts
      → ((err : Option HttpError) (r : R)
          → 0 < left
          → IsRetryRun policy left (attempt + 1) (again err r))
      → IsRetryRun policy (suc left) attempt (retry_answer policy attempts attempt again a remote)
  unfolding retry_answer
  answer-IsRetryRun attempts left attempt again (reply v) remote e h =
      IsRetryRun-finished (suc left) attempt (reply v) remote (omega arith) tt
  answer-IsRetryRun attempts left attempt again (failed err) remote e h =
      elim (Bool-cases (is_retryable_error err)) [
        | inl t ↦ elim (Bool-cases (leb attempts (attempt + 1))) [
          | inl end ↦
              rw (t, end)
                (IsRetryRun-finished (suc left) attempt (failed err) remote (omega arith)
                  (λ _. ground arith))
          | inr more ↦
              rw (t, more)
                (IsRetryRun-followed left attempt err (again (some err) remote) t
                  (h (some err) remote (ground arith)))
        ]
        | inr f ↦
            rw f
              (IsRetryRun-finished (suc left) attempt (failed err) remote (omega arith) (λ t. cc))
      ]

  retry_loop-IsRetryRun :
      (attempts left attempt : ℕ) (last_err : Option HttpError) (remote : R)
      → left + attempt ≡ attempts
      → 0 < left
      → IsRetryRun policy left attempt (retry_loop policy attempts f left attempt last_err remote)
  unfolding retry_loop
  retry_loop-IsRetryRun attempts zero attempt last_err remote e h = absurd (omega arith)
  retry_loop-IsRetryRun attempts (suc left) attempt last_err remote e h =
      answer-IsRetryRun attempts left attempt _
        (f remote (connect_timeout policy attempt) (read_timeout policy attempt)).0
        (f remote (connect_timeout policy attempt) (read_timeout policy attempt)).1 e
        (λ err r pos. retry_loop-IsRetryRun attempts left (attempt + 1) err r (omega arith) pos)

  -- Never a panic: a request is made at least once and at most max(attempts, 1) times. All answers
  -- but the last are errors that may be tried again; the last one is the result, and it is such
  -- an error only if the calls are used up. The timeouts of the calls and the pauses between them
  -- are those of the policy.
  pub request_with_retry-IsRetryRun :
      (remote : R)
      → IsRetryRun policy (at_least_one policy.attempts) 0 (request_with_retry policy f remote)
  unfolding request_with_retry
  request_with_retry-IsRetryRun remote =
      retry_loop-IsRetryRun (at_least_one policy.attempts) (at_least_one policy.attempts) 0 none
        remote (omega arith) (ground arith)
