-- ===== src/Listing.antt =====
-- background/p2p-listing-client.ts: listings between users, which are reviewed before they are made.
pub mod Records
pub mod Parse
pub mod Request
pub mod Prepare
pub mod Confirm
