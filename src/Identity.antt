-- ===== src/Identity.antt =====
-- `wasi:identity` (crates/wasi-identity): the manager of access tokens and the handlers.
pub mod Tokens
pub mod Host
