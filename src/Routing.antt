-- ===== src/Routing.antt =====
-- codebridge/routing.
pub mod Names
pub mod Repos
pub mod Output
