-- ===== src/Otel/Guest.antt =====
-- The guest's side of `wasi:otel` (crates/wasi-otel/src/guest): values, metrics and spans on their way
-- from the crate `opentelemetry_sdk` to the host.
pub mod Convert
pub mod Metrics
pub mod Tracing
