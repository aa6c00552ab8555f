-- ===== src/Cli/Intervals.antt =====
-- src/cli.rs: when something that is done at intervals is due, and the cutoff of a removal by age.
use rustory.Prelude.{
  ℕ, ◌*◌, ◌<◌, ℤ, pos, negsuc, ◌-ℤ◌, pos_part, Bool, true, Option, none, some, ◌≡◌, ◌↔◌, refl, ltb,
  leb_ℤ, ◌==◌, if◌then◌else◌, arith,
}
use rustory.Errors.{Result, ok, err, anyhow}

abbrev i64_bound : ℕ
i64_bound = 9_223_372_036_854_775_808

-- Within an `i64`, or its nearest end: `saturating_sub` of a difference.
abbrev saturated : ℤ → ℤ
saturated (pos n) = if ltb n 9_223_372_036_854_775_808 then pos n else pos 9_223_372_036_854_775_807
saturated (negsuc n) =
    if ltb n 9_223_372_036_854_775_808 then negsuc n else negsuc 9_223_372_036_854_775_807

-- i64::try_from(n).unwrap_or(i64::MAX)
abbrev as_i64_or_max : ℕ → ℤ
as_i64_or_max n = saturated (pos n)

-- v.max(0)
abbrev at_least_zero : ℤ → ℤ
at_least_zero (pos n) = pos n
at_least_zero (negsuc n) = pos 0

unfoldable pub compute_last_seen_age_sec : ℤ → Option ℤ → Option ℤ
compute_last_seen_age_sec now_unix none = none
compute_last_seen_age_sec now_unix (some ts) = some (at_least_zero (saturated (now_unix -ℤ ts)))

-- u64::try_from(v).unwrap_or(0)
abbrev as_u64_or_zero : ℤ → ℕ
as_u64_or_zero v = pos_part v

unfoldable pub compute_next_due_in_sec : ℤ → Option ℤ → ℕ → ℕ
compute_next_due_in_sec now_unix none interval_sec = 0
compute_next_due_in_sec now_unix (some last) interval_sec =
    let elapsed = at_least_zero (saturated (now_unix -ℤ last)) in
    as_u64_or_zero (at_least_zero (saturated (as_i64_or_max interval_sec -ℤ elapsed)))

unfoldable pub should_trigger_interval : ℤ → Option ℤ → ℕ → Bool
should_trigger_interval now_unix none min_interval_sec = true
should_trigger_interval now_unix (some last) min_interval_sec =
    leb_ℤ (as_i64_or_max min_interval_sec) (saturated (now_unix -ℤ last))

-- `checked_mul` and `checked_sub` of an `i64`.
abbrev checked : ℤ → Option ℤ
checked (pos n) = if ltb n 9_223_372_036_854_775_808 then some (pos n) else none
checked (negsuc n) = if ltb n 9_223_372_036_854_775_808 then some (negsuc n) else none

cutoff_at : ℤ → Option ℤ → Result ℤ
cutoff_at now_unix none = err (anyhow "older-than-days is too large")
cutoff_at now_unix (some retention_sec) = elim (checked (now_unix -ℤ retention_sec)) [
  | none ↦ err (anyhow "failed to compute prune cutoff")
  | some cutoff ↦ ok cutoff
]

retention : ℕ → Option ℤ
retention older_than_days =
    if ltb older_than_days 9_223_372_036_854_775_808
    then checked (pos (older_than_days * 86_400))
    else none

unfoldable pub compute_prune_cutoff_unix : ℤ → ℕ → Result ℤ
unfolding cutoff_at retention
compute_prune_cutoff_unix now_unix older_than_days =
    if older_than_days == 0
    then err (anyhow "--older-than-days must be >= 1")
    else cutoff_at now_unix (retention older_than_days)

due_at :
    (elapsed : ℤ) (interval : ℕ)
    → 0 < interval
    → (pos_part (at_least_zero (saturated (as_i64_or_max interval -ℤ at_least_zero elapsed))) ≡ 0)
      ↔ (leb_ℤ (as_i64_or_max interval) elapsed ≡ true)
unfolding ◌-ℤ◌
due_at (pos n) interval h = ground arith
due_at (negsuc n) interval h = ground arith

-- With an interval of at least a second, no time is left to wait exactly when the trigger would fire,
-- wherever the clock and the last time stand.
pub compute_next_due-should_trigger :
    (now_unix : ℤ) (last : Option ℤ) (interval : ℕ)
    → 0 < interval
    → (compute_next_due_in_sec now_unix last interval ≡ 0)
      ↔ (should_trigger_interval now_unix last interval ≡ true)
unfolding compute_next_due_in_sec should_trigger_interval
compute_next_due-should_trigger now_unix none interval h = (λ e. refl, λ e. refl)
compute_next_due-should_trigger now_unix (some last) interval h =
    due_at (saturated (now_unix -ℤ last)) interval h
