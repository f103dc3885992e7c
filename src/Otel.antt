-- ===== src/Otel.antt =====
-- Telemetry: the retries of exports and the measuring service (crates/otel), and `wasi:otel`
-- (crates/wasi-otel), whose guest and host convert spans and metrics to messages of the OpenTelemetry
-- protocol.
pub mod Retry
pub mod Service
pub mod Values
pub mod MetricData
pub mod Metrics
pub mod Traces
pub mod Guest
