-- ===== src/Tests.antt =====
-- Tests: the definitions on concrete inputs, and the theorems applied to them.
pub mod Samples
pub mod Gateways
pub mod Outboxes
pub mod FixedPoint
pub mod Markets
pub mod Sales
pub mod Portfolios
pub mod Collections
pub mod Controllers
pub mod Clients
mod Listings
mod Externals
mod Sessions
