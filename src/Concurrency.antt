-- ===== src/Concurrency.antt =====
-- Concurrency groups: internal/controller/concurrency.go.
pub mod Member
pub mod Lease
pub mod Activity
pub mod Gate
pub mod Release
pub mod Exclusion
pub mod Bootstrap
pub mod Attempts
mod Sample
mod Tests
