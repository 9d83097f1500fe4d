-- ===== src/Parser.antt =====
-- The parser: compiler/include/qpc/parser.h and compiler/src/parser.c.
pub mod State
pub mod Loops
pub mod Types
pub mod Primary
pub mod Expr
pub mod Stmt
pub mod Knot
pub mod Decl
pub mod Opened
pub mod Steps
pub mod Ends
pub mod Returns
pub mod Operators
pub mod Precedence
pub mod Recovery
pub mod Stray
pub mod Whole
mod Tests
