-- ===== src/Lexer/Bounds.antt =====
-- Where the lexer's cursor stands (compiler/src/lexer.c): every operation moves it forward and keeps
-- it inside the content, and changes neither the content nor the source id.
pub mod Moves
pub mod TokenIn
pub mod Numbers
pub mod Quoted
