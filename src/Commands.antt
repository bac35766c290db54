-- ===== src/Commands.antt =====
-- codebridge/commands.
pub mod Parse
pub mod Shortcuts
