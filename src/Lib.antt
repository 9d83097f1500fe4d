-- ===== src/Lib.antt =====
-- Verification of the Q+ compiler (qpc), the C program under Q+/compiler.
--
-- A source file is loaded into a registry with a table of its line starts (source.c), cut into tokens
-- (lexer.c with the tables of token.h), parsed into a tree (parser.c, ast.h), checked for names and places
-- (sema.c), then for unsafe constructs (security.c), and written as C (codegen.c); main.c puts the parts
-- together. Every part reports through diagnostic.c, which finds the line and column of a report in the
-- registry.
--
-- Common: Boolean tests, lists over native numbers, byte slices, u32 and u64 arithmetic.
-- Token: include/qpc/token.h. Kind has `TokenKind` and `token_kind_to_str`, Keyword the table and the
--   binary search, Lookup its comparison with a linear search.
-- Source: src/source.c. The registry is the list of loaded files; fopen and fread are one function
--   from a path to the bytes read, an argument of `source_load`. A content is a list of bytes.
-- Diagnostic: src/diagnostic.c. `emitted` is what goes to stderr, the last report first; colours are
--   left out. Caret computes how many carets underline a span.
-- Lexer: src/lexer.c, one file for each group of routines, and State for the cursor. Every routine
--   takes the lexer and returns its result with the lexer after it. A read at or past the end gives
--   0, as `peek` does. Bounds has what each routine reads and where it leaves the cursor.
-- Ast: include/qpc/ast.h, a data type by node kind; a NULL pointer is a constructor.
-- Security: src/security.c. State and Checks are the rules, Scan the walk, Errors an independent count
--   of the rejected places, Sound the proof that the walk reports it.
-- Sema: src/sema.c. Table is the hashed symbol tables, with the chain of scopes as a list of tables;
--   Bodies and Walk are the two passes, Errors an independent count of the faults over lists of
--   names, Lookup the tables against such lists, Sound the proof that the walk reports the count.
-- Parser: include/qpc/parser.h and src/parser.c. State has the struct, the steps on tokens and the monad
--   of the routines, Loops the loops that fill a local array, then Types, Primary, Expr, Stmt and Decl
--   follow the routines of the file. The four that call each other stand in the record `Routines`,
--   and Knot closes it on fuel. A routine returns its result, or `overrun` where it would write behind
--   the end of a local array, or `no_fuel`. The tree stands for the arena's nodes. Steps is what a
--   token does to the parser, Ends the proof that the fuel is enough, Precedence the grammar of the
--   operators, Recovery and Stray what happens after an error.
-- Codegen: src/codegen.c. Writer is the growing buffer, without the bytes behind the text, and Operators
--   the tables; State has the struct and the steps, and Types, Expr, Stmt and Decl follow the routines.
--   The five that call each other stand in the record `Emitters`, and Program closes it on fuel, a unit
--   for each call, with the preamble and the file. A routine returns none where the fuel does not reach.
--   Shape has the weight of a tree, which is fuel enough where statements and declarations stand in the
--   blocks: on another node there `cg_stmt` and `cg_decl` call each other without end.
--   The array of deferred expressions is the list of its entries below `defer_top`. `%g` of a float's
--   text and whether `fopen` opens a path are arguments. Text compares the buffer with a text to which is
--   only added; Balance and Keeps are about what the routines leave unchanged, and that they return.
-- Main: `cmd_build` of src/main.c, from the path to its status and what is in the file. What a path
--   reads, which paths open for writing and `%g` are one record, an argument. Passes shows what a
--   status of 0 means.
-- Arena: the allocator of include/qpc/common.h, its blocks as offsets and capacities.
-- Examples: the theorems at concrete inputs.
--
-- Numbers are naturals with the wrap of u32 and u64 written out where the source counts or computes
-- with them. The cursor of the lexer is a plain number, which stays a u32 below 4 GiB; the parser's
-- theorems are about such sources, and that of the token array about those below 2 GiB, since its u32
-- capacity wraps beyond.
-- The loops of the lexer run on fuel: the bytes left, or one more, which is enough since every round
-- takes a byte (Lexer/Tokens). The binary search of the keywords runs on one round more than entries
-- (Token/Lookup), that of the lines on one more than lines (Source/Location). The parser has three
-- units of fuel for each token that may be left, and three more: a call from one of its routines to
-- another costs one, and between two tokens there are at most three (Parser/Ends); a loop that skips
-- tokens has one for each, and one more for its last test (Parser/Steps). The code generator has three for
-- each node and type, and two more (Codegen/Whole). What `current` holds
-- before `parser_init` is not initialised in the source, and is an argument of it here.
--
-- Not modelled: the value of a float literal, whose text is kept for `strtod`; failing allocation;
-- printing of tokens and trees; `arena_free` and `cw_free`; `cmd_lex`, `cmd_parse` and the command line; the programs written in Q+, the editor extension and the AI server.
pub mod Common
pub mod Token
pub mod Source
pub mod Diagnostic
pub mod Lexer
pub mod Ast
pub mod Security
pub mod Sema
pub mod Parser
pub mod Codegen
pub mod Arena
pub mod Main
mod Examples
