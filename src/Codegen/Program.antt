-- ===== src/Codegen/Program.antt =====
-- `codegen_emit_c` of compiler/src/codegen.c: the preamble, the declarations and the file. The mutual
-- recursion costs a unit of fuel for each call of one of the five routines from another.
use q.Ast.{AstNode, program, Nodes}
use q.Codegen.Decl.{decl_emit, decl_lines}
use q.Codegen.Expr.{expr_emit}
use q.Codegen.State.{CodeGen, Emit, ◌>>◌, then_emit, on_writer, newline, out_of_fuel}
use q.Codegen.Stmt.{block_emit, stmt_emit}
use q.Codegen.Types.{Emitters, type_emit}
use q.Codegen.Writer.{CWriter, cw_init, cw_writeln}
use q.Common.{
  ℕ, zero, suc, Bool, true, false, Option, some, none, [], ◌∷◌, ◌++◌, Bytes, codes, if◌then◌else◌,
}

abbrev put_line : Bytes → Emit
put_line s = on_writer (cw_writeln s)

-- `cg_preamble`.
abbrev pub banner : Emit
banner =
    put_line (codes "/*")
    >> put_line
        (codes " * Generated by qpc (Q+ Compiler) " ++ 226 ∷ 128 ∷ 148 ∷ codes " DO NOT EDIT")
    >> put_line (codes " * Freestanding C11 " ++ 226 ∷ 128 ∷ 148 ∷ codes " no libc required")
    >> put_line (codes " */")
    >> newline

abbrev pub includes : Emit
includes =
    put_line (codes "#include <stdint.h>")
    >> put_line (codes "#include <stddef.h>")
    >> put_line (codes "#include <stdbool.h>")
    >> newline

abbrev pub slice_helpers : Emit
slice_helpers =
    put_line (codes "/* Q+ fat-pointer slice type */")
    >> put_line (codes "typedef struct { void *ptr; size_t len; } qp_slice;")
    >> newline

abbrev pub port_helpers : Emit
port_helpers =
    put_line (codes "/* Port I/O (x86) */")
    >> put_line (codes "static inline void qp_port_out_u8(uint16_t port, uint8_t val) {")
    >> put_line (codes "    __asm__ volatile (\"outb %0, %1\" : : \"a\"(val), \"Nd\"(port));")
    >> put_line (codes "}")
    >> put_line (codes "static inline uint8_t qp_port_in_u8(uint16_t port) {")
    >> put_line (codes "    uint8_t val;")
    >> put_line (codes "    __asm__ volatile (\"inb %1, %0\" : \"=a\"(val) : \"Nd\"(port));")
    >> put_line (codes "    return val;")
    >> put_line (codes "}")
    >> put_line (codes "static inline void qp_port_out_u16(uint16_t port, uint16_t val) {")
    >> put_line (codes "    __asm__ volatile (\"outw %0, %1\" : : \"a\"(val), \"Nd\"(port));")
    >> put_line (codes "}")
    >> put_line (codes "static inline uint16_t qp_port_in_u16(uint16_t port) {")
    >> put_line (codes "    uint16_t val;")
    >> put_line (codes "    __asm__ volatile (\"inw %1, %0\" : \"=a\"(val) : \"Nd\"(port));")
    >> put_line (codes "    return val;")
    >> put_line (codes "}")
    >> put_line (codes "static inline void qp_port_out_u32(uint16_t port, uint32_t val) {")
    >> put_line (codes "    __asm__ volatile (\"outl %0, %1\" : : \"a\"(val), \"Nd\"(port));")
    >> put_line (codes "}")
    >> put_line (codes "static inline uint32_t qp_port_in_u32(uint16_t port) {")
    >> put_line (codes "    uint32_t val;")
    >> put_line (codes "    __asm__ volatile (\"inl %1, %0\" : \"=a\"(val) : \"Nd\"(port));")
    >> put_line (codes "    return val;")
    >> put_line (codes "}")
    >> newline

abbrev pub mmio_helpers : Emit
mmio_helpers =
    put_line (codes "/* MMIO access helpers */")
    >> put_line
        (codes "#define QP_MMIO_READ8(addr)        (*(volatile uint8_t  *)(uintptr_t)(addr))")
    >> put_line
        (codes "#define QP_MMIO_READ16(addr)       (*(volatile uint16_t *)(uintptr_t)(addr))")
    >> put_line
        (codes "#define QP_MMIO_READ32(addr)       (*(volatile uint32_t *)(uintptr_t)(addr))")
    >> put_line
        (codes "#define QP_MMIO_READ64(addr)       (*(volatile uint64_t *)(uintptr_t)(addr))")
    >> put_line (
        codes
          "#define QP_MMIO_WRITE8(addr, val)  (*(volatile uint8_t  *)(uintptr_t)(addr) = (val))")
    >> put_line (
        codes
          "#define QP_MMIO_WRITE16(addr, val) (*(volatile uint16_t *)(uintptr_t)(addr) = (val))")
    >> put_line (
        codes
          "#define QP_MMIO_WRITE32(addr, val) (*(volatile uint32_t *)(uintptr_t)(addr) = (val))")
    >> put_line (
        codes
          "#define QP_MMIO_WRITE64(addr, val) (*(volatile uint64_t *)(uintptr_t)(addr) = (val))")
    >> newline

abbrev pub cg_preamble : Emit
cg_preamble = banner >> includes >> slice_helpers >> port_helpers >> mmio_helpers

unfoldable pub emitters : (Bytes → Bytes) → ℕ → Emitters
emitters float_text zero = record {
  float_text = float_text;
  cg_type = λ t. out_of_fuel;
  cg_expr = λ n. out_of_fuel;
  cg_block = λ n. out_of_fuel;
  cg_stmt = λ n. out_of_fuel;
  cg_decl = λ n. out_of_fuel;
}
emitters float_text (suc fuel) =
    let r = emitters float_text fuel in
    record {
      float_text = float_text;
      cg_type = type_emit r;
      cg_expr = expr_emit r;
      cg_block = block_emit r;
      cg_stmt = stmt_emit r;
      cg_decl = decl_emit r;
    }

-- `codegen_init`.
abbrev pub codegen_init : CodeGen
codegen_init = record { out = cw_init; defer_stack = [] }

-- The whole text: the preamble and the declarations.
unfoldable pub program_text : Emitters → Nodes → Option CodeGen
program_text r decls = then_emit (cg_preamble codegen_init) (decl_lines r decls)

-- `cw_flush_to_file`: whether the file could be opened, and what is written to it. `opens` stands for
-- `fopen`.
abbrev pub cw_flush_to_file : (Bytes → Bool) → Bytes → CWriter → Bool × Bytes
cw_flush_to_file opens name w = if opens name then (true, w.buf) else (false, [])

abbrev pub flushed : (Bytes → Bool) → Bytes → Option CodeGen → Option (Bool × Bytes)
flushed opens name (some cg) = some (cw_flush_to_file opens name cg.out)
flushed opens name none = none

-- `codegen_emit_c`: the verdict and the file; none when the fuel does not reach.
unfoldable pub codegen_emit_c : Emitters → (Bytes → Bool) → AstNode → Bytes → Option (Bool × Bytes)
codegen_emit_c r opens (program _ decls) name = flushed opens name (program_text r decls)
codegen_emit_c r opens _ name = some (false, [])
