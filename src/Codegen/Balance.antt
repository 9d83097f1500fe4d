-- ===== src/Codegen/Balance.antt =====
-- What the steps of compiler/src/codegen.c do to the state: text is only added, and the indentation and
-- the deferred expressions are as they were.
use q.Ast.{AstNode}
use q.Codegen.Capacity.{cw_ensure-buf, cw_ensure-indent}
use q.Codegen.Shape.{Placed, weight}
use q.Codegen.State.{CodeGen, Emit, then_emit}
use q.Codegen.Writer.{CWriter, c_string, cw_write, write_indent, cw_nl}
use q.Common.{
  ℕ, zero, suc, ◌≤◌, Option, some, List, [], ◌∷◌, ◌++◌, Bytes, codes, length, append-nil,
  append_assoc, ◌≡◌, refl, sym, ap, ◌∙◌, arith,
}

-- Text was added, at the same indentation.
pub record Adds (w v : CWriter) : Type 0 where
  pub text : Bytes
  pub buf : v.buf ≡ w.buf ++ text
  pub indent : v.indent ≡ w.indent

Adds-refl : (w : CWriter) → Adds w w
Adds-refl w = record { text = []; buf = sym (append-nil w.buf); indent = refl }

pub Adds-trans : {u v w : CWriter} → Adds u v → Adds v w → Adds u w
Adds-trans {u} h k = record {
  text = h.text ++ k.text;
  buf = k.buf ∙ ap (λ x. x ++ k.text) h.buf ∙ append_assoc u.buf h.text k.text;
  indent = k.indent ∙ h.indent;
}

pub cw_write-Adds : (s : Bytes) (w : CWriter) → Adds w (cw_write s w)
unfolding cw_write
cw_write-Adds s w = record {
  text = c_string s;
  buf = ap (λ x. x ++ c_string s) (cw_ensure-buf (length (c_string s)) w);
  indent = cw_ensure-indent (length (c_string s)) w;
}

write_indent-Adds : (n : ℕ) (w : CWriter) → Adds w (write_indent n w)
write_indent-Adds zero w = Adds-refl w
write_indent-Adds (suc n) w =
    Adds-trans (cw_write-Adds (codes "    ") w) (write_indent-Adds n (cw_write (codes "    ") w))

pub cw_nl-Adds : (w : CWriter) → Adds w (cw_nl w)
unfolding cw_nl
cw_nl-Adds w = Adds-trans (cw_write-Adds (10 ∷ []) w) (write_indent-Adds w.indent _)

-- Expressions of at most the weight `m`.
pub data AllFit (m : ℕ) : List AstNode → Type 0 where
  none_left : AllFit m []
  one_more :
      {n : AstNode} {ns : List AstNode} → Placed n → weight n ≤ m → AllFit m ns → AllFit m (n ∷ ns)

AllFit-append : {m : ℕ} {xs ys : List AstNode} → AllFit m xs → AllFit m ys → AllFit m (xs ++ ys)
AllFit-append none_left k = k
AllFit-append (one_more p w h) k = one_more p w (AllFit-append h k)

AllFit-mono : {m o : ℕ} {xs : List AstNode} → m ≤ o → AllFit m xs → AllFit o xs
AllFit-mono l none_left = none_left
AllFit-mono l (one_more p w h) = one_more p (omega (arith, l, w)) (AllFit-mono l h)

-- From `s` to `t`, text was added and `extra` expressions of at most the weight `m` were deferred, in an
-- array of 256.
pub record Grown (m : ℕ) (s t : CodeGen) : Type 0 where
  pub adds : Adds s.out t.out
  pub extra : List AstNode
  pub stack : t.defer_stack ≡ s.defer_stack ++ extra
  pub each : AllFit m extra
  pub fits : length s.defer_stack ≤ 256 → length t.defer_stack ≤ 256

-- From `s` to `t`, text was added and nothing else changed.
pub record Kept (s t : CodeGen) : Type 0 where
  pub adds : Adds s.out t.out
  pub stack : t.defer_stack ≡ s.defer_stack

pub Kept-Grown : {m : ℕ} {s t : CodeGen} → Kept s t → Grown m s t
Kept-Grown {s} h = record {
  adds = h.adds;
  extra = [];
  stack = h.stack ∙ sym (append-nil s.defer_stack);
  each = none_left;
  fits = λ k. omega (arith, k, ap length h.stack);
}

pub Kept-trans : {s t u : CodeGen} → Kept s t → Kept t u → Kept s u
Kept-trans h k = record { adds = Adds-trans h.adds k.adds; stack = k.stack ∙ h.stack }

pub Grown-trans : {m : ℕ} {s t u : CodeGen} → Grown m s t → Grown m t u → Grown m s u
Grown-trans {s} h k = record {
  adds = Adds-trans h.adds k.adds;
  extra = h.extra ++ k.extra;
  stack = k.stack ∙ ap (λ x. x ++ k.extra) h.stack ∙ append_assoc s.defer_stack h.extra k.extra;
  each = AllFit-append h.each k.each;
  fits = λ l. k.fits (h.fits l);
}

pub Grown-mono : {m o : ℕ} {s t : CodeGen} → m ≤ o → Grown m s t → Grown o s t
Grown-mono l h = record {
  adds = h.adds;
  extra = h.extra;
  stack = h.stack;
  each = AllFit-mono l h.each;
  fits = h.fits;
}

-- A routine has returned, and this holds of the state after it.
pub data Held (P : CodeGen → Type 0) : Option CodeGen → Type 0 where
  held : {t : CodeGen} → P t → Held P (some t)

pub bind-Held :
    {P Q : CodeGen → Type 0} {o : Option CodeGen} {g : Emit}
    → Held P o
    → ((t : CodeGen) → P t → Held Q (g t))
    → Held Q (then_emit o g)
bind-Held (held {t} h) k = k t h

pub map-Held :
    {P Q : CodeGen → Type 0} {o : Option CodeGen}
    → Held P o
    → ((t : CodeGen) → P t → Q t)
    → Held Q o
map-Held (held {t} h) k = held (k t h)

-- Routines that keep the state, and routines that may defer.
pub record Keeps (f : Emit) : Type 0 where
  pub run : (s : CodeGen) → Held (Kept s) (f s)

pub record Grows (m : ℕ) (f : Emit) : Type 0 where
  pub run : (s : CodeGen) → Held (Grown m s) (f s)

pub Keeps-Grows : {m : ℕ} {f : Emit} → Keeps f → Grows m f
Keeps-Grows h = record { run = λ s. map-Held (h.run s) (λ t. Kept-Grown) }
