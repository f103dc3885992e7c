-- ===== src/KeyValue.antt =====
-- The service `wasi:keyvalue` (crates/wasi-keyvalue): the trait of a backend, the default backend in
-- memory, the host's handlers over any backend, and the cache for guests.
pub mod Backend
pub mod Memory
pub mod Host
pub mod Cache
