-- ===== src/Http.antt =====
-- The service `wasi:http` (crates/wasi-http): the cache of responses and the outgoing requests of the
-- guest, and the server and the client of the host.
pub mod Control
pub mod Cache
pub mod Outgoing
pub mod Server
pub mod Default
