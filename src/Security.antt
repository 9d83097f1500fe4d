-- ===== src/Security.antt =====
-- The security analyzer: compiler/include/qpc/security.h and compiler/src/security.c.
pub mod State
pub mod Checks
pub mod Scan
pub mod Errors
pub mod Reports
pub mod Rules
pub mod Sound
pub mod Verdict
pub mod Agree
pub mod Unsafe
