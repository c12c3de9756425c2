-- ===== src/Events.antt =====
-- platform/internal/events: what a typed event is stamped into, and how it reaches the backends.
pub mod Kind
pub mod Event
pub mod Envelope
pub mod Factory
pub mod Wrapping
pub mod Wire
pub mod Storage
pub mod StorageOrder
pub mod Logs
pub mod LogsKept
mod Tests
