-- ===== src/Sema.antt =====
-- The semantic analyzer: compiler/include/qpc/sema.h and compiler/src/sema.c.
pub mod Table
pub mod State
pub mod Bodies
pub mod Walk
pub mod Errors
pub mod Lookup
pub mod Steps
pub mod Rules
pub mod Params
pub mod Sound
pub mod Verdict
pub mod Scoping
