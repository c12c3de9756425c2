-- ===== src/Runtime.antt =====
-- platform/internal/app: what one platform process does from its launch to its end.
pub mod Io
pub mod Health
pub mod Active
pub mod Owned
pub mod Launch
pub mod Rules
pub mod Stages
pub mod Inner
pub mod Resources
pub mod Releases
pub mod Telling
pub mod TellingRun
pub mod Serving
pub mod ServingActive
pub mod ServingTurns
pub mod ServingQuiet
pub mod ServingRun
mod Tests
