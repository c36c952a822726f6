-- ===== src/Gateway.antt =====
-- The protocol of the protected gateway: what may be sent, and in which form.
pub mod Error
pub mod Payload
pub mod Identity
pub mod Message
pub mod Envelope
