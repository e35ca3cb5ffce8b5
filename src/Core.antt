-- ===== src/Core.antt =====
-- The crate kavach-core: the types of its contracts, the wire form of verdicts, base64, the
-- configuration, the allowlist and the model manifest.
pub mod Contracts
pub mod Wire
pub mod Config
pub mod Allowlist
pub mod Base64
pub mod Manifest
