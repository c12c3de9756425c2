-- ===== src/Redundancy.antt =====
-- platform/internal/machine/redundancy: which of a machine's two instances is Active.
pub mod Role
pub mod Disk
pub mod Lease
pub mod Exclusion
pub mod Acquisition
pub mod Interleaving
pub mod Statements
pub mod Promotion
pub mod PromotionRules
pub mod Failover
pub mod Turns
pub mod Lifecycle
pub mod Phases
pub mod TurnOrder
pub mod Grace
mod Tests
mod TurnTests
