-- ===== src/AtomicFile.antt =====
-- utils/atomicfile: WriteFile, and what a reader of the target sees of it.
pub mod Write
pub mod Attempts
pub mod Atomicity
mod Tests
