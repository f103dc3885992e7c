-- ===== src/Sdk.antt =====
-- The SDK of guests (crates/qwasr-sdk): errors, the builder of requests, and replies.
pub mod Error
pub mod Request
pub mod Reply
pub mod Capabilities
