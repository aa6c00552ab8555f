-- ===== src/Cli/AutoPrune.antt =====
-- src/cli.rs: `maybe_run_auto_prune`, whose marker file holds the time of the last removal.
use rustory.Prelude.{
  ℕ, ℤ, Text, codes, Bool, true, false, Option, none, some, ◌++◌, ◌≡◌, refl, is_empty, not,
  if◌then◌else◌, Bool-cases, inl, inr,
}
use rustory.Prelude.Words.{trim, parse_i64, show_i64}
use rustory.Errors.{Result, ok, err, anyhow, Result-cases}
use rustory.Storage.Schema.{LocalStore}
use rustory.Storage.Prune.{prune_entries_older_than}
use rustory.Cli.Settings.{
  Env, resolve_auto_prune_enabled, resolve_auto_prune_days, resolve_auto_prune_keep_recent,
  resolve_auto_prune_interval_sec,
}
use rustory.Cli.Intervals.{should_trigger_interval, compute_prune_cutoff_unix}

-- The content of the marker file, `none` if there is no such file.
unfoldable pub read_rate_limit_marker : Option Text → Result (Option ℤ)
read_rate_limit_marker none = ok none
read_rate_limit_marker (some content) =
    if is_empty (trim content) then ok none else elim (parse_i64 (trim content)) [
      | none ↦ err (anyhow "invalid rate limit marker")
      | some parsed ↦ ok (some parsed)
    ]

unfoldable pub write_rate_limit_marker : ℤ → Text
write_rate_limit_marker now_unix = show_i64 now_unix ++ codes "\n"

-- `fs::write` of the marker: how it ends, and the content of the file afterwards.
abbrev pub WriteFile : Type 0
WriteFile = Text → Result (Unit {0}) × Option Text

-- What a run leaves.
pub record Pruned : Type 0 where
  pub result : Result (Unit {0})
  pub store : LocalStore
  pub marker : Option Text

abbrev left_alone : LocalStore → Option Text → Result (Unit {0}) → Pruned
left_alone store marker r = record { result = r; store = store; marker = marker }

pruned_at : WriteFile → LocalStore → Option Text → ℤ → ℕ → Result ℤ → Pruned
pruned_at write store marker now_unix keep_recent (err e) = left_alone store marker (err e)
pruned_at write store marker now_unix keep_recent (ok cutoff_unix) = record {
  result = (write (write_rate_limit_marker now_unix)).0;
  store = (prune_entries_older_than store cutoff_unix keep_recent false).0;
  marker = (write (write_rate_limit_marker now_unix)).1;
}

-- With the settings: the days, the rows to keep and the interval.
with_settings : WriteFile → LocalStore → Option Text → ℤ → ℕ → ℕ → ℕ → Result (Option ℤ) → Pruned
with_settings write store marker now_unix older_than_days keep_recent min_interval_sec (err e) =
    left_alone store marker (err e)
with_settings write store marker now_unix older_than_days keep_recent min_interval_sec (ok last) =
    if not (should_trigger_interval now_unix last min_interval_sec)
    then left_alone store marker (ok tt)
    else pruned_at write store marker now_unix keep_recent
        (compute_prune_cutoff_unix now_unix older_than_days)

read_settings : WriteFile → LocalStore → Option Text → ℤ → (days keep interval : Result ℕ) → Pruned
read_settings write store marker now_unix (err e) keep interval = left_alone store marker (err e)
read_settings write store marker now_unix (ok days) (err e) interval =
    left_alone store marker (err e)
read_settings write store marker now_unix (ok days) (ok keep) (err e) =
    left_alone store marker (err e)
read_settings write store marker now_unix (ok days) (ok keep) (ok interval) =
    with_settings write store marker now_unix days keep interval (read_rate_limit_marker marker)

if_enabled :
    WriteFile
    → LocalStore
    → Option Text
    → ℤ
    → (days keep interval : Result ℕ) → Result Bool
    → Pruned
if_enabled write store marker now_unix days keep interval (err e) = left_alone store marker (err e)
if_enabled write store marker now_unix days keep interval (ok false) =
    left_alone store marker (ok tt)
if_enabled write store marker now_unix days keep interval (ok true) =
    read_settings write store marker now_unix days keep interval

unfoldable pub maybe_run_auto_prune :
    ⦃env : Env⦄ → WriteFile → LocalStore → Option Text → ℤ → Pruned
unfolding if_enabled read_settings with_settings pruned_at read_rate_limit_marker
    write_rate_limit_marker
maybe_run_auto_prune write store marker now_unix =
    if_enabled write store marker now_unix resolve_auto_prune_days resolve_auto_prune_keep_recent
      resolve_auto_prune_interval_sec resolve_auto_prune_enabled

-- Either nothing changed, or the removal was due and was done, and then the time was written to the
-- marker, whose failure is the run's.
pub data IsPruned ⦃env : Env⦄ (write : WriteFile) (store : LocalStore) (marker : Option Text)
    (now_unix : ℤ) (p : Pruned) : Type 0 where
  untouched : p.store ≡ store → p.marker ≡ marker → IsPruned write store marker now_unix p
  done :
      (days keep interval : ℕ) (last : Option ℤ) (cutoff : ℤ)
      → resolve_auto_prune_enabled ≡ ok true
      → resolve_auto_prune_days ≡ ok days
      → resolve_auto_prune_keep_recent ≡ ok keep
      → resolve_auto_prune_interval_sec ≡ ok interval
      → read_rate_limit_marker marker ≡ ok last
      → should_trigger_interval now_unix last interval ≡ true
      → compute_prune_cutoff_unix now_unix days ≡ ok cutoff
      → p.store ≡ (prune_entries_older_than store cutoff keep false).0
      → p.marker ≡ (write (show_i64 now_unix ++ codes "\n")).1
      → p.result ≡ (write (show_i64 now_unix ++ codes "\n")).0
      → IsPruned write store marker now_unix p

module _ ⦃env : Env⦄ (write : WriteFile) (store : LocalStore) (marker : Option Text)
    (now_unix : ℤ) where
  -- Entries are removed only where this is enabled and due, by the settings of age and of rows to keep;
  -- then the marker is written with the digits of the present time and a line feed, and the run ends
  -- as this write does, with an error after the removal where it fails. In every other case, errors of
  -- the settings, of the marker that is read and of the cutoff included, neither store nor marker
  -- change.
  pub maybe_run_auto_prune-IsPruned :
      IsPruned write store marker now_unix (maybe_run_auto_prune write store marker now_unix)
  unfolding maybe_run_auto_prune if_enabled read_settings with_settings pruned_at
      write_rate_limit_marker
  maybe_run_auto_prune-IsPruned = elim (Result-cases resolve_auto_prune_enabled) [
    | inr (e, e0) ↦ rw (maybe_run_auto_prune, e0) (untouched refl refl)
    | inl (false, e0) ↦ rw (maybe_run_auto_prune, e0) (untouched refl refl)
    | inl (true, e0) ↦ elim (Result-cases resolve_auto_prune_days) [
      | inr (e, e1) ↦ rw (maybe_run_auto_prune, e0, e1) (untouched refl refl)
      | inl (days, e1) ↦ elim (Result-cases resolve_auto_prune_keep_recent) [
        | inr (e, e2) ↦ rw (maybe_run_auto_prune, e0, e1, e2) (untouched refl refl)
        | inl (keep, e2) ↦ elim (Result-cases resolve_auto_prune_interval_sec) [
          | inr (e, e3) ↦ rw (maybe_run_auto_prune, e0, e1, e2, e3) (untouched refl refl)
          | inl (interval, e3) ↦ elim (Result-cases (read_rate_limit_marker marker)) [
            | inr (e, e4) ↦ rw (maybe_run_auto_prune, e0, e1, e2, e3, e4) (untouched refl refl)
            | inl (last, e4) ↦ elim (Bool-cases (should_trigger_interval now_unix last interval)) [
              | inr e5 ↦ rw (maybe_run_auto_prune, e0, e1, e2, e3, e4, e5) (untouched refl refl)
              | inl e5 ↦ elim (Result-cases (compute_prune_cutoff_unix now_unix days)) [
                | inr (e, e6) ↦
                    rw (maybe_run_auto_prune, e0, e1, e2, e3, e4, e5, e6) (untouched refl refl)
                | inl (cutoff, e6) ↦
                    rw (maybe_run_auto_prune, e0, e1, e2, e3, e4, e5, e6)
                      (done days keep interval last cutoff e0 e1 e2 e3 e4 e5 e6 refl refl refl)
              ]
            ]
          ]
        ]
      ]
    ]
  ]
