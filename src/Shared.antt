-- ===== src/Shared.antt =====
-- Code under src/shared that several components use.
pub mod Result
pub mod Error
pub mod Millis
