-- ===== src/Cli/Settings.antt =====
-- src/cli.rs and the settings file of src/config.rs: values from the command line, the environment and
-- the file, in this order.
use rustory.Prelude.{
  ℕ, ◌+◌, Text, String, codes, Bool, true, false, Option, none, some, List, [], ◌∷◌, map, keep_if,
  any_of, is_empty, not, leb, ◌==◌, ◌&&◌, text_eq, if◌then◌else◌,
}
use rustory.Prelude.Words.{trim, split_on, parse_usize, first_word}
use rustory.Errors.{Result, ok, err, anyhow, ◌>>=◌}
use rustory.Core.{pkg_version}
use rustory.Tracker.{PeerMeta}

pub record FileConfig : Type 0 where
  pub db_path : Option Text
  pub user_id : Option Text
  pub device_id : Option Text
  pub trackers : Option (List Text)
  pub tracker_token : Option Text
  pub relay_addr : Option Text
  pub swarm_key_path : Option Text
  pub p2p_identity_key_path : Option Text
  pub relay_identity_key_path : Option Text
  pub p2p_watch_start_jitter_sec : Option ℕ
  pub p2p_request_attempts : Option ℕ
  pub p2p_request_timeout_base_sec : Option ℕ
  pub p2p_request_timeout_cap_sec : Option ℕ
  pub p2p_request_backoff_base_ms : Option ℕ
  pub search_limit_default : Option ℕ
  pub record_ignore_regex : Option Text

-- `std::env::var`.
pub record Env : Type 0 where
  pub var : Text → Option Text

unfoldable pub normalize_opt_string : Option Text → Option Text
normalize_opt_string none = none
normalize_opt_string (some value) = if is_empty (trim value) then none else some (trim value)

abbrev or_else : {A : Type 0} → Option A → Option A → Option A
or_else none b = b
or_else (some a) b = some a

abbrev or_value : {A : Type 0} → Option A → A → A
or_value none b = b
or_value (some a) b = a

-- A number of 64 bits.
unfoldable pub parsed_number : String → Text → Result ℕ
parsed_number what raw = elim (parse_usize raw) [ none ↦ err (anyhow what) | some n ↦ ok n ]

-- A number that is not 0.
unfoldable pub positive : String → ℕ → Result ℕ
positive what n = if n == 0 then err (anyhow what) else ok n

-- make_ascii_lowercase
abbrev lower : ℕ → ℕ
lower c = if leb 65 c && leb c 90 then c + 32 else c

unfoldable pub parse_env_bool : Text → String → Result Bool
parse_env_bool value label =
    let v = map lower (trim value) in
    if any_of (text_eq v) (codes "1" ∷ codes "true" ∷ codes "yes" ∷ codes "on" ∷ [])
    then ok true
    else if any_of (text_eq v) (codes "0" ∷ codes "false" ∷ codes "no" ∷ codes "off" ∷ [])
    then ok false
    else err (anyhow label)

unfoldable pub parse_attempts : ℕ → String → Result ℕ
parse_attempts value label = positive label value

unfoldable pub is_self_rr_command : Text → Bool
is_self_rr_command cmd = elim (first_word cmd) [
  | none ↦ false
  | some first ↦ text_eq first (codes "rr")
]

module _ ⦃env : Env⦄ where
  unfoldable pub env_nonempty : String → Option Text
  unfolding normalize_opt_string
  env_nonempty key = normalize_opt_string (env.var (codes key))

  -- A number from the environment, or else `default`.
  env_number : String → ℕ → Result ℕ
  env_number key default = elim (env_nonempty key) [
    | none ↦ ok default
    | some raw ↦ parsed_number key raw
  ]

  env_positive : String → ℕ → Result ℕ
  env_positive key default = elim (env_nonempty key) [
    | none ↦ ok default
    | some raw ↦ parsed_number key raw >>= positive key
  ]

  env_flag : String → Result Bool
  env_flag key = elim (env_nonempty key) [ none ↦ ok false | some raw ↦ parse_env_bool raw key ]

  unfoldable pub resolve_async_upload_enabled : Result Bool
  unfolding env_flag
  resolve_async_upload_enabled = env_flag "RUSTORY_ASYNC_UPLOAD"

  unfoldable pub resolve_async_upload_interval_sec : Result ℕ
  unfolding env_positive
  resolve_async_upload_interval_sec = env_positive "RUSTORY_ASYNC_UPLOAD_INTERVAL_SEC" 15

  unfoldable pub resolve_async_upload_limit : Result ℕ
  unfolding env_positive
  resolve_async_upload_limit = env_positive "RUSTORY_ASYNC_UPLOAD_LIMIT" 200

  unfoldable pub resolve_async_upload_marker_path : Text
  resolve_async_upload_marker_path =
      or_value (env_nonempty "RUSTORY_ASYNC_UPLOAD_MARKER_PATH")
        (codes "~/.config/rustory/async-upload.last")

  unfoldable pub resolve_auto_prune_enabled : Result Bool
  unfolding env_flag
  resolve_auto_prune_enabled = env_flag "RUSTORY_AUTO_PRUNE"

  unfoldable pub resolve_auto_prune_days : Result ℕ
  unfolding env_positive
  resolve_auto_prune_days = env_positive "RUSTORY_AUTO_PRUNE_DAYS" 180

  unfoldable pub resolve_auto_prune_interval_sec : Result ℕ
  unfolding env_positive
  resolve_auto_prune_interval_sec = env_positive "RUSTORY_AUTO_PRUNE_INTERVAL_SEC" 86_400

  unfoldable pub resolve_auto_prune_keep_recent : Result ℕ
  unfolding env_number
  resolve_auto_prune_keep_recent = env_number "RUSTORY_AUTO_PRUNE_KEEP_RECENT" 0

  unfoldable pub resolve_auto_prune_marker_path : Text
  resolve_auto_prune_marker_path =
      or_value (env_nonempty "RUSTORY_AUTO_PRUNE_MARKER_PATH")
        (codes "~/.config/rustory/auto-prune.last")

  -- From the command line, the environment or the file, else `default`.
  unfoldable pub layered_number : Option ℕ → String → Option ℕ → ℕ → Result ℕ
  layered_number (some v) key file default = ok v
  layered_number none key file default = elim (env_nonempty key) [
    | some raw ↦ parsed_number key raw
    | none ↦ ok (or_value file default)
  ]

  unfoldable pub resolve_search_limit : Option ℕ → FileConfig → Result ℕ
  unfolding layered_number
  resolve_search_limit cli cfg =
      layered_number cli "RUSTORY_SEARCH_LIMIT" cfg.search_limit_default 100_000

  unfoldable pub resolve_p2p_watch_start_jitter_sec : Option ℕ → FileConfig → Result ℕ
  unfolding layered_number
  resolve_p2p_watch_start_jitter_sec cli cfg =
      layered_number cli "RUSTORY_P2P_WATCH_START_JITTER_SEC" cfg.p2p_watch_start_jitter_sec 0

  raw_trackers : List Text → FileConfig → List Text
  raw_trackers (url ∷ urls) cfg = url ∷ urls
  raw_trackers [] cfg = elim (env_nonempty "RUSTORY_TRACKERS") [
    | some list ↦ split_on 44 list
    | none ↦ or_value cfg.trackers []
  ]

  unfoldable pub resolve_trackers : List Text → FileConfig → List Text
  unfolding raw_trackers
  resolve_trackers cli cfg = keep_if (λ s. not (is_empty s)) (map trim (raw_trackers cli cfg))

  unfoldable pub resolve_tracker_token : Option Text → FileConfig → Option Text
  resolve_tracker_token cli cfg =
      or_else (normalize_opt_string cli)
        (or_else (env_nonempty "RUSTORY_TRACKER_TOKEN") (normalize_opt_string cfg.tracker_token))

  unfoldable pub resolve_user_id : FileConfig → Text
  resolve_user_id cfg =
      or_value
        (or_else (env_nonempty "RUSTORY_USER_ID")
          (or_else (normalize_opt_string cfg.user_id) (env_nonempty "USER")))
        (codes "unknown")

  unfoldable pub resolve_device_id : FileConfig → Text
  resolve_device_id cfg =
      or_value (or_else (env_nonempty "RUSTORY_DEVICE_ID") (normalize_opt_string cfg.device_id))
        (or_value (or_else (env_nonempty "HOSTNAME") (env_nonempty "HOST")) (codes "unknown"))

  unfoldable pub resolve_record_ignore_regex : FileConfig → Option Text
  resolve_record_ignore_regex cfg =
      or_else (env_nonempty "RUSTORY_RECORD_IGNORE_REGEX")
        (normalize_opt_string cfg.record_ignore_regex)

  unfoldable pub resolve_peer_meta : FileConfig → PeerMeta
  unfolding resolve_user_id resolve_device_id
  resolve_peer_meta cfg = record {
    device_id = some (resolve_device_id cfg);
    hostname = some (or_value (env_nonempty "HOSTNAME") (codes "unknown"));
    user_id = some (resolve_user_id cfg);
    version = some pkg_version;
  }
