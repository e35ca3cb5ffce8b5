-- ===== src/Npu.antt =====
-- crates/kavach-core/src/npu.rs, npu_backend.rs and tensor.rs: sessions, tensors, the CPU scorer and
-- the reference model.
pub mod Proto
pub mod Onnx
pub mod Tensor
pub mod Engine
pub mod Session
