-- ===== src/Sensors.antt =====
-- The crate kavach-sensors: the pipe to the broker, the driver of the packet filters, and the consumers
-- of system events.
pub mod PipeBroker
pub mod WfpDriver
pub mod Etw
