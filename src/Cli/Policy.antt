-- ===== src/Cli/Policy.antt =====
-- src/cli.rs: `resolve_p2p_request_retry_policy`.
use rustory.Prelude.{
  ℕ, ◌≤◌, ◌<◌, String, Option, none, some, ◌≡◌, refl, ltb, ◌==◌, if◌then◌else◌, arith, Bool-cases,
  Option-cases, inl, inr,
}
use mathlib.Core.Path.{subst}
use rustory.Errors.{Result, ok, err, ◌>>=◌, ok_injective}
use rustory.HttpRetry.{millis, secs}
use rustory.P2p.Client.{RequestRetryPolicy, default_policy}
use rustory.Cli.Settings.{FileConfig, Env, env_nonempty, parsed_number, parse_attempts, positive}

abbrev capped : ℕ → ℕ → ℕ
capped base cap = if ltb cap base then base else cap

-- The policy of the four settings, or the first error.
put_together : (attempts base cap backoff : Result ℕ) → Result RequestRetryPolicy
put_together (err e) base cap backoff = err e
put_together (ok attempts) (err e) cap backoff = err e
put_together (ok attempts) (ok base) (err e) backoff = err e
put_together (ok attempts) (ok base) (ok cap) (err e) = err e
put_together (ok attempts) (ok base) (ok cap) (ok backoff) = ok (record {
  attempts = attempts;
  timeout_base = base;
  timeout_cap = capped base cap;
  backoff_base = backoff;
})

module _ ⦃env : Env⦄ where
  -- The attempts from whichever place has them.
  attempts_from : Option ℕ → Option ℕ → Result ℕ
  attempts_from (some v) file = parse_attempts v "req-attempts"
  attempts_from none file = elim (env_nonempty "RUSTORY_P2P_REQUEST_ATTEMPTS") [
    | some raw ↦ parsed_number "RUSTORY_P2P_REQUEST_ATTEMPTS" raw >>= λ v.
        parse_attempts v "RUSTORY_P2P_REQUEST_ATTEMPTS"
    | none ↦ elim file [
      | some v ↦ parse_attempts v "p2p_request_attempts"
      | none ↦ ok default_policy.attempts
    ]
  ]

  -- A duration from whichever place has it, in the unit of the setting.
  duration_from : (ℕ → ℕ) → Option ℕ → String → Option ℕ → ℕ → Result ℕ
  duration_from unit (some v) key file default = ok (unit v)
  duration_from unit none key file default = elim (env_nonempty key) [
    | some raw ↦ parsed_number key raw >>= λ v. ok (unit v)
    | none ↦ elim file [ some v ↦ ok (unit v) | none ↦ ok default ]
  ]

  unfoldable pub resolve_p2p_request_retry_policy :
      (cli_attempts cli_timeout_base_sec cli_timeout_cap_sec cli_backoff_base_ms : Option ℕ)
      → FileConfig
      → Result RequestRetryPolicy
  unfolding attempts_from duration_from put_together
  resolve_p2p_request_retry_policy cli_attempts cli_timeout_base_sec cli_timeout_cap_sec
        cli_backoff_base_ms cfg =
      put_together (attempts_from cli_attempts cfg.p2p_request_attempts)
        (duration_from secs cli_timeout_base_sec "RUSTORY_P2P_REQUEST_TIMEOUT_BASE_SEC"
          cfg.p2p_request_timeout_base_sec default_policy.timeout_base)
        (duration_from secs cli_timeout_cap_sec "RUSTORY_P2P_REQUEST_TIMEOUT_CAP_SEC"
          cfg.p2p_request_timeout_cap_sec default_policy.timeout_cap)
        (duration_from millis cli_backoff_base_ms "RUSTORY_P2P_REQUEST_BACKOFF_BASE_MS"
          cfg.p2p_request_backoff_base_ms default_policy.backoff_base)

le-capped : (base cap : ℕ) → base ≤ capped base cap
le-capped base cap = ground arith

bind_ok :
    {A B : Type 0} (r : Result A) (f : A → Result B) (b : B)
    → (r >>= f) ≡ ok b
    → (a : A) × (r ≡ ok a) × (f a ≡ ok b)
bind_ok (ok a) f b h = (a, refl, h)
bind_ok (err e) f b h = absurd (cc)

parse_attempts_bound : (v n : ℕ) (label : String) → parse_attempts v label ≡ ok n → 0 < n
unfolding parse_attempts positive
parse_attempts_bound v n label h = elim (Bool-cases (v == 0)) [
  | inl t ↦ absurd (cc (rw t at h))
  | inr f ↦ let same : v ≡ n = ok_injective (rw f at h) in ground arith
]

abbrev pub IsUsable : RequestRetryPolicy → Type 0
IsUsable policy = (0 < policy.attempts) × (policy.timeout_base ≤ policy.timeout_cap)

put_together-IsUsable :
    (attempts base cap backoff : Result ℕ) (policy : RequestRetryPolicy)
    → ((n : ℕ) → attempts ≡ ok n → 0 < n)
    → put_together attempts base cap backoff ≡ ok policy
    → IsUsable policy
unfolding put_together
put_together-IsUsable (err e) base cap backoff policy some_attempt h = absurd (cc)
put_together-IsUsable (ok attempts) (err e) cap backoff policy some_attempt h = absurd (cc)
put_together-IsUsable (ok attempts) (ok base) (err e) backoff policy some_attempt h = absurd (cc)
put_together-IsUsable (ok attempts) (ok base) (ok cap) (err e) policy some_attempt h = absurd (cc)
put_together-IsUsable (ok attempts) (ok base) (ok cap) (ok backoff) policy some_attempt h =
    subst IsUsable (ok_injective h) (some_attempt attempts refl, le-capped base cap)

module _ ⦃env : Env⦄ where
  attempts_bound : (cli file : Option ℕ) (n : ℕ) → attempts_from cli file ≡ ok n → 0 < n
  unfolding attempts_from
  attempts_bound (some v) file n h = parse_attempts_bound v n _ h
  attempts_bound none file n h = elim (Option-cases (env_nonempty "RUSTORY_P2P_REQUEST_ATTEMPTS")) [
    | inr (raw, e) ↦
        let (v, read, made) =
          bind_ok (parsed_number "RUSTORY_P2P_REQUEST_ATTEMPTS" raw)
            (λ v. parse_attempts v "RUSTORY_P2P_REQUEST_ATTEMPTS") n (rw (attempts_from, e) at h) in
        parse_attempts_bound v n _ made
    | inl e ↦ elim (Option-cases file) [
      | inr (v, e') ↦ parse_attempts_bound v n _ (rw (attempts_from, e, e') at h)
      | inl e' ↦
          let same : 3 ≡ n = ok_injective (rw (attempts_from, e, e') at h) in omega (arith, same)
    ]
  ]

  -- Whatever the command line, the environment and the file say, a policy that is resolved makes at
  -- least one attempt, and its longest timeout is not below its first.
  pub resolve_p2p_request_retry_policy-IsUsable :
      (cli_attempts cli_base cli_cap cli_backoff : Option ℕ) (cfg : FileConfig)
      (policy : RequestRetryPolicy)
      → resolve_p2p_request_retry_policy cli_attempts cli_base cli_cap cli_backoff cfg ≡ ok policy
      → IsUsable policy
  unfolding resolve_p2p_request_retry_policy
  resolve_p2p_request_retry_policy-IsUsable cli_attempts cli_base cli_cap cli_backoff cfg policy h =
      put_together-IsUsable (attempts_from cli_attempts cfg.p2p_request_attempts) _ _ _ policy
        (attempts_bound cli_attempts cfg.p2p_request_attempts) h
