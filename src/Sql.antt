-- ===== src/Sql.antt =====
-- `wasi:sql` (crates/wasi-sql): values, the SQLite backend, the host's handlers and the guest's JSON.
pub mod Value
pub mod Json
pub mod Connection
pub mod Host
