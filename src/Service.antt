-- ===== src/Service.antt =====
-- src/service.rs and src/main.rs: the Windows service, and the live loop that it runs.
pub mod Live
pub mod Lifecycle
