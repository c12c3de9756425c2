-- ===== src/HealthFabric.antt =====
-- platform/internal/site/healthfabric: how a site's instances exchange health observations.
pub mod Message
pub mod RoundTrip
pub mod Publisher
pub mod Fates
pub mod Accounting
pub mod Subscriber
mod Tests
