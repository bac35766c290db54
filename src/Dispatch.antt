-- ===== src/Dispatch.antt =====
-- codebridge/dispatch.
pub mod Closer
pub mod Output
pub mod Program
pub mod Parser
pub mod Orchestrator
pub mod Process
