-- ===== src/Sessions.antt =====
-- codebridge/sessions.
pub mod Queue
pub mod State
pub mod Stored
pub mod Tracking
pub mod Service
pub mod Coordinator
