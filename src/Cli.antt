-- ===== src/Cli.antt =====
-- src/cli.rs: settings, rate limits and the automatic removal of old entries. The text of an error
-- that quotes a value ends with the name of the setting.
pub mod Settings
pub mod Intervals
pub mod Policy
pub mod AutoPrune
