-- ===== src/Websockets.antt =====
-- `wasi:websockets` (crates/wasi-websockets): the peers of a server and the messages for them.
pub mod Server
pub mod Upgrade
pub mod Host
