-- ===== src/Token.antt =====
-- Tokens: compiler/include/qpc/token.h.
pub mod Kind
pub mod Keyword
pub mod Lookup
