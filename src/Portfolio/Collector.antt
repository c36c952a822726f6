-- ===== src/Portfolio/Collector.antt =====
-- background/portfolio-collector.ts: the reads of a Steam account, and the snapshot made of them.
pub mod Failure
pub mod Trades
pub mod Snapshot
pub mod Sync
