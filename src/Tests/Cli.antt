-- ===== src/Tests/Cli.antt =====
-- The theorems on settings and rate limits, applied.
use rustory.Prelude.{
  ◌-ℤ◌, pos, codes, true, none, some, ◌≡◌, ◌↔◌, refl, arith, text_eq, if◌then◌else◌,
}
use rustory.Errors.{ok, err, anyhow}
use rustory.P2p.Client.{RequestRetryPolicy}
use rustory.Cli.Settings.{FileConfig, Env, env_nonempty, parse_attempts, positive}
use rustory.Cli.Intervals.{
  compute_next_due_in_sec, should_trigger_interval, compute_next_due-should_trigger,
}
use rustory.Cli.Policy.{
  IsUsable, resolve_p2p_request_retry_policy, resolve_p2p_request_retry_policy-IsUsable,
}
use rustory.Cli.AutoPrune.{WriteFile, IsPruned, maybe_run_auto_prune, maybe_run_auto_prune-IsPruned}
use rustory.Tests.{far}

compute_next_due-should_trigger_example :
    (compute_next_due_in_sec (pos 100) (some (pos 90)) 15 ≡ 0)
    ↔ (should_trigger_interval (pos 100) (some (pos 90)) 15 ≡ true)
compute_next_due-should_trigger_example =
    compute_next_due-should_trigger (pos 100) (some (pos 90)) 15 (omega arith)

still_five : compute_next_due_in_sec (pos 100) (some (pos 90)) 15 ≡ 5
unfolding compute_next_due_in_sec ◌-ℤ◌
still_five = refl

-- Only the automatic removal is set.
instance abbrev pruning : Env
pruning = record {
  var = λ key. if text_eq key (codes "RUSTORY_AUTO_PRUNE") then some (codes " On ") else none;
}

abbrev no_file : FileConfig
no_file = record {
  db_path = none;
  user_id = none;
  device_id = none;
  trackers = none;
  tracker_token = none;
  relay_addr = none;
  swarm_key_path = none;
  p2p_identity_key_path = none;
  relay_identity_key_path = none;
  p2p_watch_start_jitter_sec = none;
  p2p_request_attempts = none;
  p2p_request_timeout_base_sec = none;
  p2p_request_timeout_cap_sec = none;
  p2p_request_backoff_base_ms = none;
  search_limit_default = none;
  record_ignore_regex = none;
}

long_base :
    (policy : RequestRetryPolicy) × (resolve_p2p_request_retry_policy
        (some 2)
        (some 60)
        none
        none
        no_file
      ≡ ok policy)
unfolding resolve_p2p_request_retry_policy env_nonempty parse_attempts positive text_eq
long_base = (_, refl)

resolve_p2p_request_retry_policy-IsUsable_example : IsUsable long_base.0
resolve_p2p_request_retry_policy-IsUsable_example =
    resolve_p2p_request_retry_policy-IsUsable (some 2) (some 60) none none no_file long_base.0
      long_base.1

-- A marker file that cannot be written keeps its content.
abbrev refused_write : WriteFile
refused_write content = (err (anyhow "write rate limit marker"), some (codes "100\n"))

maybe_run_auto_prune-IsPruned_example :
    IsPruned refused_write far
      (some (codes "100\n"))
      (pos 100_000_000)
      (maybe_run_auto_prune refused_write far (some (codes "100\n")) (pos 100_000_000))
maybe_run_auto_prune-IsPruned_example =
    maybe_run_auto_prune-IsPruned refused_write far (some (codes "100\n")) (pos 100_000_000)
