-- ===== src/Util.antt =====
-- codebridge/util.
pub mod Chunk
pub mod Path
