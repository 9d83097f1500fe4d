-- ===== src/Codegen/Capacity.antt =====
-- The buffer of `CWriter` (compiler/src/codegen.c) has room for what is written.
use q.Codegen.Writer.{CWriter, c_string, cw_init, cw_ensure, cw_write, write_indent, cw_nl}
use q.Common.{
  ℕ, zero, suc, ◌+◌, ◌*◌, ◌^◌, ◌≤◌, ◌<◌, [], ◌∷◌, ◌++◌, Bytes, leb, length, append-nil,
  append_assoc, length-append, codes, ◌≡◌, refl, sym, ap, ◌∙◌, arith, inl, inr, Bool-cases,
}

-- A writer in order: the text and its terminator are inside the buffer, which is not much larger than
-- the text.
pub record IsWriter (w : CWriter) : Type 0 where
  pub room : length w.buf < w.cap
  pub bounded : w.cap ≤ 65536 + 4 * length w.buf

pub cw_init-IsWriter : IsWriter cw_init
unfolding cw_init
cw_init-IsWriter = record { room = omega arith; bounded = omega arith }

-- `cw_ensure` makes room for `n` more bytes and the terminator.
cw_ensure-room :
    (n : ℕ) (w : CWriter)
    → IsWriter w
    → length w.buf + n < 2 ^ 60
    → (length w.buf + n < (cw_ensure n w).cap)
      × ((cw_ensure n w).cap ≤ 65536 + 4 * (length w.buf + n))
unfolding cw_ensure
cw_ensure-room n w h k = elim (Bool-cases (leb w.cap (length w.buf + n + 1))) [
  | inl e ↦ rw e (
      let le : w.cap ≤ length w.buf + n + 1 = ground (arith, e) in
      (omega (arith, le, k, h.room), omega (arith, le, k)))
  | inr e ↦ rw e (ground (arith, e, h.room), omega (arith, h.bounded))
]

pub cw_ensure-buf : (n : ℕ) (w : CWriter) → (cw_ensure n w).buf ≡ w.buf
unfolding cw_ensure
cw_ensure-buf n w = elim (Bool-cases (leb w.cap (length w.buf + n + 1))) [
  | inl e ↦ rw e refl
  | inr e ↦ rw e refl
]

pub cw_ensure-indent : (n : ℕ) (w : CWriter) → (cw_ensure n w).indent ≡ w.indent
unfolding cw_ensure
cw_ensure-indent n w = elim (Bool-cases (leb w.cap (length w.buf + n + 1))) [
  | inl e ↦ rw e refl
  | inr e ↦ rw e refl
]

-- Between two writers, `text` was written.
pub record Wrote (text : Bytes) (w v : CWriter) : Type 0 where
  pub ordered : IsWriter v
  pub buf : v.buf ≡ w.buf ++ text
  pub indent : v.indent ≡ w.indent

pub Wrote-nothing : (w : CWriter) → IsWriter w → Wrote [] w w
Wrote-nothing w h = record { ordered = h; buf = sym (append-nil w.buf); indent = refl }

pub Wrote-trans : {a b : Bytes} {u v w : CWriter} → Wrote a u v → Wrote b v w → Wrote (a ++ b) u w
Wrote-trans {a} {b} {u} h k = record {
  ordered = k.ordered;
  buf = k.buf ∙ ap (λ x. x ++ b) h.buf ∙ append_assoc u.buf a b;
  indent = k.indent ∙ h.indent;
}

-- A write puts its bytes and the terminator inside the buffer that it has made room in.
pub cw_write-Wrote :
    (s : Bytes) (w : CWriter)
    → IsWriter w
    → length w.buf + length (c_string s) < 2 ^ 60
    → Wrote (c_string s) w (cw_write s w)
unfolding cw_write
cw_write-Wrote s w h k =
    let n = length (c_string s) in
    let room = cw_ensure-room n w h k in
    let same = cw_ensure-buf n w in
    let size : length ((cw_ensure n w).buf ++ c_string s) ≡ length w.buf + n =
      length-append (cw_ensure n w).buf (c_string s) ∙ ap (λ x. length x + n) same in
    record {
      ordered = record {
        room = omega (arith, size, room.0);
        bounded = omega (arith, size, room.1);
      };
      buf = ap (λ x. x ++ c_string s) same;
      indent = cw_ensure-indent n w;
    }

-- The start of `n` levels.
abbrev pub spaces : ℕ → Bytes
spaces zero = []
spaces (suc n) = codes "    " ++ spaces n

write_indent-Wrote :
    (n : ℕ) (w : CWriter)
    → IsWriter w
    → length w.buf + length (spaces n) < 2 ^ 60
    → Wrote (spaces n) w (write_indent n w)
unfolding c_string
write_indent-Wrote zero w h k = Wrote-nothing w h
write_indent-Wrote (suc n) w h k =
    let first = cw_write-Wrote (codes "    ") w h (omega (arith, k)) in
    let size : length (cw_write (codes "    ") w).buf ≡ length w.buf + 4 =
      ap length first.buf ∙ length-append w.buf (codes "    ") in
    Wrote-trans first (write_indent-Wrote n _ first.ordered (omega (arith, k, size)))

pub cw_nl-Wrote :
    (w : CWriter)
    → IsWriter w
    → length w.buf + length (spaces w.indent) + 1 < 2 ^ 60
    → Wrote (10 ∷ spaces w.indent) w (cw_nl w)
unfolding cw_nl c_string
cw_nl-Wrote w h k =
    let first = cw_write-Wrote (10 ∷ []) w h (omega (arith, k)) in
    let size : length (cw_write (10 ∷ []) w).buf ≡ length w.buf + 1 =
      ap length first.buf ∙ length-append w.buf (10 ∷ []) in
    Wrote-trans first (write_indent-Wrote w.indent _ first.ordered (omega (arith, k, size)))
