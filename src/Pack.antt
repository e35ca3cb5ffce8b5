-- ===== src/Pack.antt =====
-- tools/kavach-pack: the tool that builds and signs model bundles.
pub mod Onnx
pub mod Sign
