-- ===== src/Config.antt =====
-- The dynamic configuration: server/app/domain/runtime, application/admin, the repository of its table
-- and its seeds.
pub mod Text
pub mod Keys
pub mod Parameter
pub mod Params
pub mod Repository
pub mod Service
pub mod Typed
pub mod Rows
pub mod Admission
pub mod Updates
pub mod Managed
pub mod Seeding
pub mod Writes
pub mod Kept
pub mod Seeded
mod Tests
