-- ===== src/Resolve.antt =====
-- builder/internal/resolve: from a blueprint to the deployment descriptors of its machines.
pub mod Blueprint
pub mod Descriptor
pub mod Mesh
pub mod MachineChecks
pub mod ProjectChecks
pub mod Build
pub mod Plan
mod Tests
mod PlanTests
