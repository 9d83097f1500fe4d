-- ===== src/Codegen.antt =====
-- The C code generator: compiler/include/qpc/codegen.h and compiler/src/codegen.c.
pub mod Writer
pub mod Operators
pub mod Capacity
pub mod Text
pub mod Spelling
pub mod State
pub mod Types
pub mod Shape
pub mod Expr
pub mod Stmt
pub mod Decl
pub mod Program
pub mod Balance
pub mod Ranges
pub mod Keeps
pub mod Whole
mod Tests
