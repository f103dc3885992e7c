-- ===== src/Lib.antt =====
-- Verification of the services of crates/: the WebAssembly runtime's host services for guests, and
-- the code that guests use on top of them.
--
-- A guest calls a host service through handlers. A handler looks up the guest's handles in a table
-- of resources, calls a context (a backend such as the default one in memory) and reports errors as
-- values or traps. Handlers, contexts and guest code are functions from a state to a result and a
-- state (Base/Exec.antt): what was written before an error stays written. Each `await` on a context
-- is one step of it; where two handlers can interleave between awaits, the steps are functions of
-- their own and a theorem puts them in that order.
--
-- Base: shared notation, tests, lists, hash maps as association lists, results, big-endian bytes
--   and the methods of `str`. Numbers are natural numbers; an `i64` is its 64-bit pattern.
-- Foreign: the crates that the code relies on (anyhow, the resource table of wasmtime, chrono,
--   serde_json, http with its URIs, OpenTelemetry's data and protocol) as records of operations
--   with the laws that the code uses, each with an instance. Futures, logging and the generated
--   bindings are not modelled.
-- KeyValue: `wasi:keyvalue`. KeyValue/Backend.antt is the interface of a backend
--   (crates/wasi-keyvalue/src/host.rs, host/resource.rs) and its specification IsLawful, a map from
--   buckets and keys to values; KeyValue/Memory.antt the default backend (host/default_impl.rs),
--   one step for each operation since each holds the lock; KeyValue/Host.antt, Host/Batch.antt and
--   Host/Atomics.antt the handlers (host/store_impl.rs, batch_impl.rs, atomics_impl.rs) over any
--   backend; KeyValue/Cache.antt the guest's cache with a time to live (guest/cache.rs), whose
--   readings of the clock are arguments.
-- Http: crates/wasi-http/src/guest. Http/Control.antt is the parser of Cache-Control,
--   Http/Cache.antt the cache of responses (both cache.rs), Http/Outgoing.antt a request through
--   the cache and the proxy (outgoing.rs), with the network as a parameter. The host side is
--   crates/wasi-http/src/host: Http/Server.antt is what the server does with a request before and
--   after the guest (server.rs), Http/Server/Forwarded.antt what the header Forwarded leaves in a
--   URI's builder, and Http/Default.antt the client that sends the guest's requests
--   (default_impl.rs) over reqwest.
-- Messaging: crates/wasi-messaging/src/host. Messaging/Message.antt has the messages and their
--   updates, Messaging/Broker.antt the default broker over a broadcast channel (resource.rs,
--   default_impl.rs), Messaging/Host.antt and its children the handlers (types_impl.rs,
--   producer_impl.rs, request_reply_impl.rs), Messaging/Server.antt the server that hands messages
--   to guests (server.rs).
-- Sql: crates/wasi-sql. Sql/Value.antt and Sql/Connection.antt are the values and connections of
--   SQLite (src/host/default_impl.rs), Sql/Host.antt the handlers (types_impl.rs,
--   readwrite_impl.rs), Sql/Json.antt the guest's JSON (src/guest.rs), and Sql/Connection/Echo.antt
--   what of a query's parameters the guest reads back.
-- Vault: crates/wasi-vault/src/host. Vault/Memory.antt is the default vault (default_impl.rs),
--   Vault/Host.antt the handlers (vault_impl.rs).
-- Identity: Identity/Tokens.antt is the manager of access tokens
--   (crates/wasi-identity/src/host/default_impl.rs), in the steps between its locks;
--   Identity/Host.antt has the handlers (credentials_impl.rs).
-- Blobstore: crates/wasi-blobstore/src/host. Blobstore/Memory.antt is the default store with a heap
--   for the objects that clones of a container share (default_impl.rs), Blobstore/Host.antt the
--   handlers (blobstore_impl.rs, container_impl.rs, types_impl.rs).
-- Websockets: crates/wasi-websockets/src/host. Websockets/Server.antt is the registry of peers, the
--   receivers of a message and the default server (server.rs, types.rs, default_impl.rs),
--   Websockets/Server/Peers.antt the registries that connections can make, as a step relation,
--   Websockets/Upgrade.antt the upgrade of a request to a socket (server.rs), and
--   Websockets/Host.antt the handlers (store_impl.rs) but health-check, which pings a socket.
-- Otel: Otel/Retry.antt has the retries of exports (crates/otel/src/retry.rs), Otel/Service.antt the
--   service that measures requests (crates/otel/src/tracing.rs). The rest is
--   crates/wasi-otel/src/host: Otel/Values.antt the values, scopes and instants (types_impl.rs,
--   metrics_impl.rs), Otel/Values/Sdk.antt those of the crate opentelemetry, the metrics in
--   Otel/MetricData.antt, their export in Otel/Metrics.antt (metrics_impl.rs) with the default context
--   (default_impl.rs), and Otel/Traces.antt the export of spans (tracing_impl.rs), with
--   Otel/Traces/Groups.antt on their grouping by scope and Otel/Traces/Sent.antt on what is sent
--   for a span.
--   Otel/Guest/Convert.antt, Guest/Metrics.antt and Guest/Tracing.antt are the conversions of a
--   guest's telemetry and its processor of spans (crates/wasi-otel/src/guest/convert.rs,
--   metrics.rs, tracing.rs); theorems run them and then the host's. Floating-point numbers, ids,
--   trace states and the sampled bit of trace flags are parameters.
-- Sdk: crates/qwasr-sdk/src. Sdk/Error.antt is the errors of guests (error.rs, api/into_http.rs),
--   Sdk/Reply.antt replies and their responses (api/reply.rs, api/into_http.rs), Sdk/Request.antt
--   the builder of requests (api/request.rs, api.rs), whose types are its state,
--   Sdk/Capabilities.antt what a guest reaches through the SDK (capabilities.rs), with its state
--   store over KeyValue/Cache.antt.
-- Macros: Macros/Idents.antt is the names that the macros derive, Macros/Runtime.antt the runtime
--   macro (crates/runtime-macro/src), Macros/Guest.antt the guest macro and Macros/Topics.antt the
--   dispatch of messages that it generates (crates/guest-macro/src). They start at the settings as
--   parsed by the crate syn and end at the parts of the generated code that depend on them.
-- Tests: runs, and each result below that has hypotheses, at a concrete input.
--
-- Loops are structural recursion on the list that they go through. The loop of retries takes the
-- number of attempts that it may make as fuel, and any number above that of the failures is enough.
-- Printing a number takes one more than the number as fuel, which is enough since parsing reads the
-- number back. The iteration order of hash maps is that of the association list: theorems speak of
-- lookups and membership, and of two passes over one unchanged map, which have the same order.
--
-- Not modelled: the set-up of the runtime and of telemetry, the sockets of the servers and the
-- instances of guests that they start, the reading of configuration, and tokens: what the crates
-- syn and quote parse and print, and the panics on a text that is no identifier. A hash
-- map keyed by scopes compares them by the code's `==`, among the entries that its lookup comes upon
-- by what the code's `Hash` feeds to the hasher; which these are is a parameter, and at least those
-- that feed the same, since scopes that are `==` need not.
pub mod Base
pub mod Foreign
pub mod KeyValue
pub mod Http
pub mod Messaging
pub mod Sql
pub mod Identity
pub mod Vault
pub mod Websockets
pub mod Blobstore
pub mod Otel
pub mod Sdk
pub mod Macros
pub mod Tests
