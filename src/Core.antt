-- ===== src/Core.antt =====
-- src/core.rs: history entries and their identifiers. Paths are from the repository's root.
use rustory.Prelude.{ℕ, ℤ, Text, codes, Option, some, ◌≡◌, ◌++◌}
use rustory.Prelude.Words.{show_i64, show_u64}

-- `time::OffsetDateTime`: the conversions to and from Unix seconds that the program calls.
pub record TimeApi (T : Type 0) : Type 0 where
  pub unix_timestamp : T → ℤ
  pub from_unix_timestamp : ℤ → Option T
  -- A date and time made from seconds has these seconds.
  pub timestamp_of : (s : ℤ) (t : T) → from_unix_timestamp s ≡ some t → unix_timestamp t ≡ s

pub record Entry (T : Type 0) : Type 0 where
  pub entry_id : Text
  pub device_id : Text
  pub user_id : Text
  pub ts : T
  pub cmd : Text
  pub cwd : Text
  pub exit_code : ℤ
  pub duration_ms : ℤ
  pub shell : Text
  pub hostname : Text
  pub version : Text

pub record EntryInput (T : Type 0) : Type 0 where
  pub device_id : Text
  pub user_id : Text
  pub ts : T
  pub cmd : Text
  pub cwd : Text
  pub exit_code : ℤ
  pub duration_ms : ℤ
  pub shell : Text
  pub hostname : Text

-- The version in Cargo.toml.
abbrev pub pkg_version : Text
pkg_version = codes "0.1.0"

abbrev pub new_with_id : {T : Type 0} → Text → EntryInput T → Entry T
new_with_id entry_id input = record {
  entry_id = entry_id;
  device_id = input.device_id;
  user_id = input.user_id;
  ts = input.ts;
  cmd = input.cmd;
  cwd = input.cwd;
  exit_code = input.exit_code;
  duration_ms = input.duration_ms;
  shell = input.shell;
  hostname = input.hostname;
  version = pkg_version;
}

-- `uuid::Uuid::new_v5` in the namespace of URLs: the text of the identifier of a name.
pub record UuidApi : Type 0 where
  pub new_v5 : Text → Text

unfoldable pub import_entry_id : ⦃uuid : UuidApi⦄ → Text → Text → Text → ℤ → Text → ℕ → Text
unfolding show_i64 show_u64
import_entry_id ⦃uuid⦄ user_id device_id shell ts_unix cmd source_index = uuid.new_v5 (
    codes "rustory:import\0"
    ++ user_id
    ++ codes "\0"
    ++ device_id
    ++ codes "\0"
    ++ shell
    ++ codes "\0"
    ++ show_i64 ts_unix
    ++ codes "\0"
    ++ show_u64 source_index
    ++ codes "\0"
    ++ cmd)
