-- ===== src/Wsl.antt =====
-- The crate kavach-wsl: the guest's records, their frames, the clock of the guest and the
-- attribution of its writes.
pub mod Records
pub mod Utf8
pub mod Path
pub mod Wire
pub mod ClockSync
pub mod Correlator
