-- ===== src/Handlers.antt =====
-- codebridge/handlers.
pub mod Session
pub mod Backends
pub mod Busy
pub mod Core
