-- ===== src/Firewall.antt =====
-- crates/kavach-firewall: the privileged side, which holds the quarantine rules and enforces verdicts.
pub mod Rule
pub mod Broker
