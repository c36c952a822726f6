-- ===== src/Market.antt =====
-- Selling on the Steam market: fees, price targets, authorisations, batches.
pub mod Floats
pub mod Fees
pub mod Approvals
pub mod Batch
pub mod Targets
pub mod Gate
pub mod Orders
