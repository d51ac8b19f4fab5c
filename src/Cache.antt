-- ===== src/Cache.antt =====
-- The cache of the artifact server: internal/cache.
pub mod Policy
pub mod Store
pub mod Room
pub mod Cleanup
pub mod Upload
pub mod Commit
pub mod Serve
pub mod Sound
pub mod Steady
pub mod Serving
pub mod Offer
pub mod System
mod Tests
