-- ===== src/Deployment.antt =====
-- builder/deployment and platform/config: the descriptor that the builder writes and the platform
-- reads, and the checks that each makes of it.
pub mod Types
pub mod Health
pub mod Services
pub mod Endpoints
pub mod Builder
pub mod Platform
pub mod Decoding
pub mod Document
pub mod Written
pub mod Reading
pub mod Agreement
pub mod Separation
pub mod Sample
pub mod SampleDocument
mod Tests
