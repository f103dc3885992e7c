-- ===== src/Foreign.antt =====
-- What the program uses of code outside the repository: interfaces with the documented behaviour
-- that the program relies on as laws, each with a concrete instance below it.
pub mod Anyhow
pub mod ResourceTable
pub mod Envelope
pub mod Http
pub mod Uri
pub mod Opentelemetry
pub mod OtelSdk
