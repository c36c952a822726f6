-- ===== src/Outbox.antt =====
-- background/sync-outbox.ts: the queue of encrypted envelopes in extension storage. An operation
-- takes what storage holds and gives what it holds afterwards; the time is an argument, and the
-- sender is a function on a world that it may change.
pub mod Records
pub mod Queue
pub mod Drain
pub mod History
