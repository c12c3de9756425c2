-- ===== src/ServiceHealth.antt =====
-- platform/internal/machine/servicehealth: the probing of one machine's services.
pub mod Tracker
pub mod Policy
pub mod Target
pub mod Monitor
pub mod Workers
mod Tests
