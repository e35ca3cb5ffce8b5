-- ===== src/Tripwire.antt =====
-- The crate kavach-tripwire: entropy of written blocks, and bursts of writes by one process.
pub mod Entropy
pub mod Operation
pub mod Window
