-- ===== src/Codegen/Text.antt =====
-- The growing buffer of compiler/src/codegen.c against a text to which is only added.
use q.Codegen.Capacity.{
  IsWriter, cw_init-IsWriter, Wrote, Wrote-trans, cw_write-Wrote, spaces, cw_nl-Wrote,
}
use q.Codegen.Writer.{
  CWriter, c_string, cw_init, cw_write, cw_writef, cw_nl, cw_writeln, cw_indent, cw_dedent,
}
use q.Common.{
  ℕ, ◌+◌, ◌-◌, ◌^◌, ◌<◌, List, [], ◌∷◌, ◌++◌, Bytes, length, take, length-append, append-nil,
  append_assoc, ◌≡◌, refl, sym, subst, ap, ◌∙◌, arith,
}

-- A call of the writer.
pub data Call : Type 0 where
  write writef writeln : Bytes → Call
  nl deeper shallower : Call

-- The call, and what it adds to a text at an indentation.
abbrev pub call : Call → CWriter → CWriter
call (write s) = cw_write s
call (writef s) = cw_writef s
call (writeln s) = cw_writeln s
call nl = cw_nl
call deeper = cw_indent
call shallower = cw_dedent

abbrev pub calls : List Call → CWriter → CWriter
calls [] w = w
calls (c ∷ cs) w = calls cs (call c w)

abbrev pub text_of : Call → ℕ → Bytes
text_of (write s) n = c_string s
text_of (writef s) n = c_string (take 1023 s)
text_of (writeln s) n = c_string s ++ 10 ∷ spaces n
text_of nl n = 10 ∷ spaces n
text_of deeper n = []
text_of shallower n = []

abbrev pub level_of : Call → ℕ → ℕ
level_of deeper n = n + 1
level_of shallower n = n - 1
level_of _ n = n

abbrev pub text : List Call → ℕ → Bytes
text [] n = []
text (c ∷ cs) n = text_of c n ++ text cs (level_of c n)

-- What one call does.
record Called (c : Call) (w : CWriter) : Type 0 where
  ordered : IsWriter (call c w)
  buf : (call c w).buf ≡ w.buf ++ text_of c w.indent
  indent : (call c w).indent ≡ level_of c w.indent

writeln-Wrote :
    (s : Bytes) (w : CWriter)
    → IsWriter w
    → length w.buf + length (c_string s ++ 10 ∷ spaces w.indent) < 2 ^ 60
    → Wrote (c_string s ++ 10 ∷ spaces w.indent) w (cw_writeln s w)
unfolding cw_writeln
writeln-Wrote s w h k =
    let size = length-append (c_string s) (10 ∷ spaces w.indent) in
    let first = cw_write-Wrote s w h (omega (arith, k, size)) in
    let long : length (cw_write s w).buf ≡ length w.buf + length (c_string s) =
      ap length first.buf ∙ length-append w.buf (c_string s) in
    let second : Wrote (10 ∷ spaces w.indent) (cw_write s w) (cw_nl (cw_write s w)) =
      let level = ap (λ n. length (spaces n)) first.indent in
      subst (λ n. Wrote (10 ∷ spaces n) (cw_write s w) (cw_nl (cw_write s w))) first.indent
        (cw_nl-Wrote (cw_write s w) first.ordered (omega (arith, k, size, long, level))) in
    Wrote-trans first second

-- A writer that was written to.
Wrote-Called :
    {c : Call} {w : CWriter}
    → level_of c w.indent ≡ w.indent
    → Wrote (text_of c w.indent) w (call c w)
    → Called c w
Wrote-Called e h = record { ordered = h.ordered; buf = h.buf; indent = h.indent ∙ sym e }

call-Called :
    (c : Call) (w : CWriter)
    → IsWriter w
    → length w.buf + length (text_of c w.indent) < 2 ^ 60
    → Called c w
unfolding cw_writef cw_indent cw_dedent
call-Called (write s) w h k = Wrote-Called refl (cw_write-Wrote s w h k)
call-Called (writef s) w h k = Wrote-Called refl (cw_write-Wrote (take 1023 s) w h k)
call-Called (writeln s) w h k = Wrote-Called refl (writeln-Wrote s w h k)
call-Called nl w h k = Wrote-Called refl (cw_nl-Wrote w h (omega (arith, k)))
call-Called deeper w h k = record {
  ordered = record { room = h.room; bounded = h.bounded };
  buf = sym (append-nil w.buf);
  indent = refl;
}
call-Called shallower w h k = record {
  ordered = record { room = h.room; bounded = h.bounded };
  buf = sym (append-nil w.buf);
  indent = refl;
}

calls-text :
    (cs : List Call) (w : CWriter)
    → IsWriter w
    → length w.buf + length (text cs w.indent) < 2 ^ 60
    → IsWriter (calls cs w) × ((calls cs w).buf ≡ w.buf ++ text cs w.indent)
calls-text [] w h k = (h, sym (append-nil w.buf))
calls-text (c ∷ cs) w h k =
    let size = length-append (text_of c w.indent) (text cs (level_of c w.indent)) in
    let first = call-Called c w h (omega (arith, k, size)) in
    let long : length (call c w).buf ≡ length w.buf + length (text_of c w.indent) =
      ap length first.buf ∙ length-append w.buf (text_of c w.indent) in
    let level = ap (λ n. length (text cs n)) first.indent in
    let (ordered, rest) =
      calls-text cs (call c w) first.ordered (omega (arith, k, size, long, level)) in
    (
      ordered,
      rest
          ∙ ap (λ n. (call c w).buf ++ text cs n) first.indent
          ∙ ap (λ x. x ++ text cs (level_of c w.indent)) first.buf
          ∙ append_assoc w.buf (text_of c w.indent) (text cs (level_of c w.indent)),
    )

-- Whatever calls are made of a new writer, as long as the text stays below 2^60 bytes: every write stays
-- inside the buffer, with room for the terminator, and the buffer holds the texts of the calls one after
-- the other, each formatted text cut at 1023 bytes, and each line break with the indentation at its
-- place.
pub cw_init-text :
    (cs : List Call)
    → length (text cs 0) < 2 ^ 60
    → IsWriter (calls cs cw_init) × ((calls cs cw_init).buf ≡ text cs 0)
unfolding cw_init
cw_init-text cs h = calls-text cs cw_init cw_init-IsWriter (omega (arith, h))
