-- ===== src/Portfolio.antt =====
-- shared/portfolio-dto.ts: the snapshot of a Steam account, checked, sorted and cut into chunks.
pub mod Records
pub mod Json
pub mod Fields
pub mod Checks
pub mod Order
pub mod Sort
pub mod Packing
pub mod Chunks
pub mod Collector
