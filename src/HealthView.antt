-- ===== src/HealthView.antt =====
-- platform/internal/site/healthview: every instance's picture of the services at its site.
pub mod Inventory
pub mod View
pub mod Snapshot
pub mod Fencing
pub mod Convergence
pub mod Reduction
pub mod Observers
pub mod Accounting
pub mod Counting
pub mod Completeness
mod Tests
