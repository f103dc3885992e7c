-- ===== src/Vault.antt =====
-- `wasi:vault` (crates/wasi-vault): lockers of secrets. The traits `WasiVaultCtx` and `Locker` have the
-- operations of a backend of `wasi:keyvalue`, and are modelled by the same record.
pub mod Memory
pub mod Host
