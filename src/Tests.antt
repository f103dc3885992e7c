-- ===== src/Tests.antt =====
-- Runs of the definitions, and the theorems at concrete inputs, by component.
pub mod Str
pub mod Blobstore
pub mod Identity
pub mod Vault
pub mod Websockets
pub mod Upgrade
pub mod Sql
pub mod Otel
pub mod Broadcast
pub mod Messaging
pub mod MessagingServer
pub mod Rkyv
pub mod Http
pub mod HttpHost
pub mod Sdk
pub mod Macros
pub mod Telemetry
pub mod TelemetryGuest
pub mod KeyValue
