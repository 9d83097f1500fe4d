-- ===== src/Lexer.antt =====
-- The lexer: compiler/include/qpc/lexer.h and compiler/src/lexer.c.
pub mod Chars
pub mod State
pub mod Trivia
pub mod Word
pub mod Number
pub mod Literal
pub mod Operator
pub mod Run
pub mod Tokens
pub mod Standing
pub mod Spelling
pub mod Opened
pub mod Tests
pub mod Bounds
pub mod Value
