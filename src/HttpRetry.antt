-- ===== src/HttpRetry.antt =====
-- src/http_retry.rs: requests with retries. Durations are numbers of nanoseconds; an agent is its
-- two timeouts, and the sleeps are recorded.
pub mod Durations
pub mod Attempts
pub mod Replies
pub mod Keeps
use rustory.Prelude.{
  ℕ, zero, suc, ◌+◌, ◌*◌, ◌%◌, ◌^◌, Bool, true, Option, none, some, List, [], ◌∷◌, ◌++◌, ltb, leb,
  ◌==◌, ◌&&◌, ◌||◌, not, if◌then◌else◌,
}

pub record RetryPolicy : Type 0 where
  pub attempts : ℕ
  pub connect_base : ℕ
  pub connect_cap : ℕ
  pub read_base : ℕ
  pub read_cap : ℕ
  pub backoff_base : ℕ

abbrev pub millis : ℕ → ℕ
millis n = n * 1_000_000

abbrev pub secs : ℕ → ℕ
secs n = n * 1_000_000_000

abbrev pub tracker : RetryPolicy
tracker = record {
  attempts = 3;
  connect_base = millis 300;
  connect_cap = secs 2;
  read_base = secs 1;
  read_cap = secs 5;
  backoff_base = millis 100;
}

abbrev pub transport : RetryPolicy
transport = record {
  attempts = 3;
  connect_base = millis 500;
  connect_cap = secs 5;
  read_base = secs 3;
  read_cap = secs 30;
  backoff_base = millis 200;
}

-- 1u32.checked_shl(attempt).unwrap_or(u32::MAX)
unfoldable pub shift_factor : ℕ → ℕ
shift_factor attempt = if ltb attempt 32 then 2 ^ attempt else 4_294_967_295

-- The seconds of a `Duration` are 64 bits wide.
abbrev pub duration_limit : ℕ
duration_limit = 18_446_744_073_709_551_616_000_000_000

-- base.checked_mul(factor).unwrap_or(base)
unfoldable pub mul_or_base : ℕ → ℕ → ℕ
mul_or_base base factor = if ltb (base * factor) duration_limit then base * factor else base

unfoldable pub exp_duration : ℕ → ℕ → Option ℕ → ℕ
exp_duration base attempt (some cap) =
    let got = mul_or_base base (shift_factor attempt) in if ltb cap got then cap else got
exp_duration base attempt none = mul_or_base base (shift_factor attempt)

-- `ureq::Error`.
pub data HttpError : Type 0 where
  failure : HttpError
  status : ℕ → HttpError

unfoldable pub is_retryable_error : HttpError → Bool
is_retryable_error failure = true
is_retryable_error (status code) = code == 408 || (code == 429 || (leb 500 code && leb code 599))

-- What a request returns.
pub data Answer (A : Type 0) : Type 0 where
  reply : A → Answer A
  failed : HttpError → Answer A

-- The outcome of the calls (`none`: a panic), with all answers, the timeouts of each call and the
-- sleeps, in order.
pub record RetryRun (R A : Type 0) : Type 0 where
  pub result : Option (Answer A)
  pub remote : R
  pub answers : List (Answer A)
  pub timeouts : List (ℕ × ℕ)
  pub sleeps : List ℕ

-- `attempt as u32`
abbrev pub as_u32 : ℕ → ℕ
as_u32 n = n % 4_294_967_296

abbrev pub connect_timeout : RetryPolicy → ℕ → ℕ
connect_timeout policy attempt =
    exp_duration policy.connect_base (as_u32 attempt) (some policy.connect_cap)

abbrev pub read_timeout : RetryPolicy → ℕ → ℕ
read_timeout policy attempt = exp_duration policy.read_base (as_u32 attempt) (some policy.read_cap)

abbrev pub backoff : RetryPolicy → ℕ → ℕ
backoff policy attempt = exp_duration policy.backoff_base (as_u32 attempt) none

-- The closure: from the far side's state and the two timeouts.
abbrev pub Request : Type 0 → Type 0 → Type 0
Request R A = R → ℕ → ℕ → Answer A × R

-- if backoff > 0 { sleep(backoff) }
abbrev pub slept : ℕ → List ℕ
slept d = if ltb 0 d then d ∷ [] else []

-- policy.attempts.max(1)
abbrev pub at_least_one : ℕ → ℕ
at_least_one n = if leb 1 n then n else 1

module _ {R A : Type 0} where
  abbrev pub finished : Answer A → ℕ × ℕ → R → RetryRun R A
  finished a t remote = record {
    result = some a;
    remote = remote;
    answers = a ∷ [];
    timeouts = t ∷ [];
    sleeps = [];
  }

  abbrev pub followed : Answer A → ℕ × ℕ → ℕ → RetryRun R A → RetryRun R A
  followed a t d rest = record {
    result = rest.result;
    remote = rest.remote;
    answers = a ∷ rest.answers;
    timeouts = t ∷ rest.timeouts;
    sleeps = slept d ++ rest.sleeps;
  }

  -- One answer: return it, or sleep and go on with the next attempt.
  unfoldable pub retry_answer :
      RetryPolicy → ℕ → ℕ → (Option HttpError → R → RetryRun R A) → Answer A → R → RetryRun R A
  retry_answer policy attempts attempt again (reply v) remote =
      finished (reply v) (connect_timeout policy attempt, read_timeout policy attempt) remote
  retry_answer policy attempts attempt again (failed e) remote =
      let rest =
        followed (failed e) (connect_timeout policy attempt, read_timeout policy attempt)
          (backoff policy attempt) (again (some e) remote) in
      if not (is_retryable_error e) || leb attempts (attempt + 1)
      then finished (failed e) (connect_timeout policy attempt, read_timeout policy attempt) remote
      else rest

  -- for attempt in 0..attempts, with the rounds left; behind it `last_err.expect(…)`.
  unfoldable pub retry_loop :
      RetryPolicy → ℕ → Request R A → ℕ → ℕ → Option HttpError → R → RetryRun R A
  unfolding retry_answer
  retry_loop policy attempts f zero attempt last_err remote = record {
    result = elim last_err [ none ↦ none | some e ↦ some (failed e) ];
    remote = remote;
    answers = [];
    timeouts = [];
    sleeps = [];
  }
  retry_loop policy attempts f (suc left) attempt last_err remote =
      let (a, remote') = f remote (connect_timeout policy attempt) (read_timeout policy attempt) in
      retry_answer policy attempts attempt
        (λ err r. retry_loop policy attempts f left (attempt + 1) err r) a remote'

  unfoldable pub request_with_retry : RetryPolicy → Request R A → R → RetryRun R A
  unfolding retry_loop
  request_with_retry policy f remote =
      retry_loop policy (at_least_one policy.attempts) f (at_least_one policy.attempts) 0 none
        remote
