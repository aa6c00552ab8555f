-- ===== src/HttpRetry/Durations.antt =====
-- src/http_retry.rs: the timeouts and pauses of `exp_duration`.
use rustory.Prelude.{ℕ, zero, suc, ◌*◌, ◌^◌, ◌≤◌, ◌<◌, ◌≡◌, min, none, some, arith}
use native.Mathlib.Nat.{pow-suc}
use rustory.HttpRetry.{exp_duration, shift_factor, mul_or_base, duration_limit}

pow_pos : (n : ℕ) → 1 ≤ 2 ^ n
pow_pos zero = omega arith
pow_pos (suc n) = rw (pow-suc 2 n) (omega (arith, pow_pos n))

shift_factor_pos : (attempt : ℕ) → 1 ≤ shift_factor attempt
unfolding shift_factor
shift_factor_pos attempt = ground (arith, pow_pos attempt)

mul_or_base-ge : (base factor : ℕ) → 1 ≤ factor → base ≤ mul_or_base base factor
unfolding mul_or_base
mul_or_base-ge base (suc n) h = ground arith
mul_or_base-ge base zero h = absurd (omega arith)

-- A capped duration lies between the smaller of base and limit and the limit, and an uncapped one is
-- at least the base, also where the product overflows.
pub exp_duration_bounds :
    (base attempt limit : ℕ)
    → (exp_duration base attempt (some limit) ≤ limit)
      × (min base limit ≤ exp_duration base attempt (some limit))
      × (base ≤ exp_duration base attempt none)
unfolding exp_duration
exp_duration_bounds base attempt limit =
    let le = mul_or_base-ge base (shift_factor attempt) (shift_factor_pos attempt) in
    ground (arith, le)

-- Where the base times two to the attempt fits a `Duration`, an uncapped duration of the first 32
-- attempts is this product, and a capped one is the smaller of it and the limit.
pub exp_duration_exact :
    (base attempt limit : ℕ)
    → attempt < 32
    → base * 2 ^ attempt < duration_limit
    → (exp_duration base attempt none ≡ base * 2 ^ attempt)
      × (exp_duration base attempt (some limit) ≡ min (base * 2 ^ attempt) limit)
unfolding exp_duration mul_or_base shift_factor
exp_duration_exact base attempt limit h fits = ground arith
