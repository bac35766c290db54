-- ===== src/Services.antt =====
-- codebridge/services.
pub mod Worktree
