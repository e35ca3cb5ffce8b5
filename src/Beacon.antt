-- ===== src/Beacon.antt =====
-- The crate kavach-beacon: rolling flows of packets, and the rhythm of a beacon in them.
pub mod Flow
pub mod Detector
pub mod Engine
