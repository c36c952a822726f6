-- ===== src/Client.antt =====
-- background/gateway-client.ts: the delivery of an envelope to the gateway.
pub mod Body
pub mod Config
pub mod Delivery
pub mod Discovery
