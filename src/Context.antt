-- ===== src/Context.antt =====
-- server/app/infrastructure/ml/rag: what of the retrieved documents reaches the prompt.
pub mod Numbers
pub mod Selection
pub mod Packing
pub mod Fitting
mod Tests
pub mod Temporal
pub mod Groups
pub mod Newest
pub mod Resolved
