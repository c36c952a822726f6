-- ===== src/External.antt =====
-- background/external-router.ts: the messages of web pages and of the extension's own pages.
pub mod Messages
pub mod Dispatch
pub mod Listener
pub mod Internal
