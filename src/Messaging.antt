-- ===== src/Messaging.antt =====
-- `wasi:messaging` (crates/wasi-messaging): messages, the default broker and the host's handlers.
pub mod Message
pub mod Context
pub mod Broker
pub mod Host
pub mod Server
