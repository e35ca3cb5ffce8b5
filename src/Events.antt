-- ===== src/Events.antt =====
-- The crate kavach-events: Windows event records, their correlation and their features.
pub mod Tracker
pub mod Features
