-- ===== src/Blobstore.antt =====
-- `wasi:blobstore` (crates/wasi-blobstore): containers of objects.
pub mod Context
pub mod Memory
pub mod Host
