-- ===== src/Security.antt =====
-- codebridge/security
pub mod Totp
