-- ===== src/Macros.antt =====
-- The macros that generate a runtime (crates/runtime-macro) and a guest (crates/guest-macro).
pub mod Idents
pub mod Runtime
pub mod Guest
pub mod Topics
