-- ===== src/App.antt =====
-- platform/internal/app: how one platform process is composed from its descriptor.
pub mod Setup
pub mod LeaseSetup
pub mod DecodedSetup
pub mod ViewSetup
pub mod Targets
pub mod SampleProbes
pub mod Monitoring
pub mod OwnReports
pub mod OwnServices
pub mod Facts
pub mod FactsWrapped
pub mod StoppedFacts
pub mod Drain
pub mod Hearing
pub mod Response
pub mod ResponseCounts
mod Tests
mod DecodeTests
mod ResponseTests
