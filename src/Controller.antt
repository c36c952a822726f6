-- ===== src/Controller.antt =====
-- background/gateway-controller.ts: pairing, unpairing and synchronisation, and how they interleave.
pub mod State
pub mod Pair
pub mod Unpair
pub mod Sync
pub mod Steps
pub mod Fence
