-- ===== src/Guest.antt =====
-- The crate kavach-wsl-guest: the agent that runs inside the guest.
pub mod Audit
pub mod Vsock
