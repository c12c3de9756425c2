-- ===== src/InstanceState.antt =====
-- platform/internal/instance/state: the durable record of an instance.
pub mod Store
pub mod Epochs
pub mod Lives
mod Tests
