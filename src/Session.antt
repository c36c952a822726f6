-- ===== src/Session.antt =====
-- background/steam-read-session-provider.ts: the reads of Steam with the user's web token.
pub mod Values
pub mod Items
pub mod Assets
pub mod Token
pub mod Inventory
pub mod Offers
