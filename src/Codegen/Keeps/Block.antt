-- ===== src/Codegen/Keeps/Block.antt =====
-- `cg_block` and `cg_stmt` of compiler/src/codegen.c: a block takes back what its statements defer.
use q.Ast.{
  AstNode, null_node, block, let_stmt, assign_stmt, return_stmt, break_stmt, continue_stmt,
  defer_stmt, expr_stmt, module_decl, import_decl, fn_decl, struct_decl, enum_decl, trait_decl,
  impl_block, const_decl, static_decl, type_alias, driver_decl, syscall_decl, Nodes, no_nodes, node,
}
use q.Codegen.Balance.{
  cw_write-Adds, Kept, Kept-trans, Grown, Grown-trans, Grown-mono, AllFit, one_more, none_left,
  Kept-Grown, Held, held, bind-Held, map-Held, Keeps, Grows, Keeps-Grows,
}
use q.Codegen.Keeps.{
  skip-Keeps, put-Keeps, putf-Keeps, newline-Keeps, ◌then◌, inside, if-Keeps, Balanced, block_turn,
  array_suffix-Keeps,
}
use q.Codegen.Shape.{Placed, LinesPlaced, is_line, weight, nodes_weight}
use q.Codegen.State.{CodeGen, Emit, ◌>>◌, is_null, is_null_type}
use q.Codegen.Stmt.{
  stmt_lines, deferred, reset_defers, final_line, block_lines, block_text, block_emit, init_emit,
  push_defer, stmt_emit,
}
use q.Codegen.Types.{Emitters}
use q.Codegen.Writer.{cw_write, cw_indent}
use q.Common.{
  ℕ, zero, suc, ◌+◌, ◌-◌, ◌≤◌, ◌<◌, true, List, [], ◌∷◌, ◌++◌, ltb, length, take, length-append,
  ◌≡◌, refl, sym, ap, ◌∙◌, arith, inl, inr, Bool-cases, get_or, codes, append-nil, ltb→lt,
}

infixl 1 ◌then_grows◌
pub ◌then_grows◌ : {m : ℕ} {f g : Emit} → Grows m f → Grows m g → Grows m (f >> g)
h then_grows k = record {
  run = λ s. bind-Held (h.run s) (λ t a. map-Held (k.run t) (λ u b. Grown-trans a b));
}

pub Grows-mono : {m o : ℕ} {f : Emit} → m ≤ o → Grows m f → Grows o f
Grows-mono l h = record { run = λ s. map-Held (h.run s) (λ t. Grown-mono l) }

-- An entry of a stack, from an index on.
AllFit-get_or :
    {m : ℕ} (extra : List AstNode) (i : ℕ)
    → AllFit m extra
    → Placed (get_or extra i null_node) × (weight (get_or extra i null_node) ≤ m)
unfolding Placed weight
AllFit-get_or [] i h = (tt, omega arith)
AllFit-get_or (n ∷ ns) zero (one_more p w h) = (p, w)
AllFit-get_or (n ∷ ns) (suc i) (one_more p w h) = AllFit-get_or ns i h

AllFit-above :
    {m : ℕ} (base extra : List AstNode) (i j : ℕ)
    → AllFit m extra
    → j ≡ length base + i
    → Placed (get_or (base ++ extra) j null_node)
      × (weight (get_or (base ++ extra) j null_node) ≤ m)
AllFit-above [] extra i j h e = AllFit-get_or extra j h
AllFit-above (x ∷ base) extra i zero h e = absurd (omega (arith, e))
AllFit-above (x ∷ base) extra i (suc j) h e = AllFit-above base extra i j h (omega (arith, e))

take-all : {A : Type 0} (xs ys : List A) → take (length xs) (xs ++ ys) ≡ xs
take-all [] ys = refl
take-all (x ∷ xs) ys = ap (λ z. x ∷ z) (take-all xs ys)

module _ {b : ℕ} {r : Emitters} (h : Balanced b r) where
  stmt_lines-Grows :
      (m : ℕ) (ns : Nodes)
      → LinesPlaced ns
      → nodes_weight ns < b
      → nodes_weight ns ≤ m
      → Grows m (stmt_lines r ns)
  unfolding Placed weight
  stmt_lines-Grows m no_nodes p w l = Keeps-Grows skip-Keeps
  stmt_lines-Grows m (node n ns) p w l =
      Keeps-Grows newline-Keeps
      then_grows Grows-mono (omega arith) (h.stmt n p.0 p.1 (omega arith))
      then_grows stmt_lines-Grows m ns p.2 (omega arith) (omega arith)

  -- The deferred expressions above a stack, from a state with them on.
  deferred-Held :
      {m : ℕ} (count : ℕ) (base extra : List AstNode) (s : CodeGen)
      → AllFit m extra
      → m < b
      → s.defer_stack ≡ base ++ extra
      → Held (Kept s) (deferred r count (length base) s)
  unfolding deferred
  deferred-Held zero base extra s f l e = skip-Keeps.run s
  deferred-Held {m = m} (suc count) base extra s f l e =
      bind-Held
        (bind-Held
          (bind-Held (newline-Keeps.run s)
            λ t a. map-Held (entry t (a.stack ∙ e)) λ u k. Kept-trans a k)
          λ t a. map-Held ((put-Keeps (codes ";")).run t) λ u k. Kept-trans a k)
        λ t a. map-Held (deferred-Held count base extra t f l (a.stack ∙ e)) λ u k. Kept-trans a k
    where
      entry :
          (t : CodeGen)
          → t.defer_stack ≡ base ++ extra
          → Held (Kept t) (r.cg_expr (get_or t.defer_stack (length base + count) null_node) t)
      entry t same =
          let n = get_or t.defer_stack (length base + count) null_node in
          let fit : Placed n × (weight n ≤ m) =
            rw same (AllFit-above base extra count (length base + count) f refl) in
          (h.expr n fit.0 (omega (arith, fit.1, l))).run t

  final_line-Keeps : (n : AstNode) → Placed n → weight n < b → Keeps (final_line r n)
  final_line-Keeps n p w =
      if-Keeps (is_null n) skip-Keeps (newline-Keeps then h.expr n p w then put-Keeps _)

  -- The statements and their deferred expressions, from a state on, down to its stack.
  block_lines-Held :
      (stmts : Nodes) (final : AstNode) (s : CodeGen)
      → LinesPlaced stmts
      → Placed final
      → nodes_weight stmts + weight final < b
      → Held (Kept s) (block_lines r stmts final (length s.defer_stack) s)
  unfolding reset_defers
  block_lines-Held stmts final s p q w =
      bind-Held
        (bind-Held
          (bind-Held
            ((stmt_lines-Grows (nodes_weight stmts) stmts p (omega arith) (omega arith)).run s)
            λ t g.
              map-Held
                (deferred-Held (length t.defer_stack - length s.defer_stack) s.defer_stack g.extra t
                  g.each (omega arith) g.stack)
                λ u k. Grown-trans g (Kept-Grown k))
          λ u g. held (restored s u g))
        λ v k. map-Held ((final_line-Keeps final q (omega arith)).run v) λ z l. Kept-trans k l
    where
      restored :
          {m : ℕ} (s u : CodeGen)
          → Grown m s u
          → Kept s (record u { defer_stack = take (length s.defer_stack) u.defer_stack })
      restored s u g = record {
        adds = g.adds;
        stack = ap (take (length s.defer_stack)) g.stack ∙ take-all s.defer_stack g.extra;
      }

  block_text-Held :
      (stmts : Nodes) (final : AstNode)
      → LinesPlaced stmts
      → Placed final
      → nodes_weight stmts + weight final < b
      → (s : CodeGen) → Held (Kept s) (block_text r stmts final (length s.defer_stack) s)
  block_text-Held stmts final p q w s =
      let opened : CodeGen = record s { out = cw_write (codes "{") s.out } in
      let first : Kept s opened = record { adds = cw_write-Adds (codes "{") s.out; stack = refl } in
      let lines =
        block_lines-Held stmts final (record opened { out = cw_indent opened.out }) p q w in
      bind-Held
        (bind-Held (bind-Held lines (λ t a. held (Kept-trans first (inside a))))
          λ t a. map-Held (newline-Keeps.run t) (λ u b. Kept-trans a b))
        λ t a. map-Held ((put-Keeps (codes "}")).run t) (λ u b. Kept-trans a b)

  pub block_emit-Keeps :
      (n : AstNode) → Placed n → weight n + block_turn n ≤ suc b → Keeps (block_emit r n)
  unfolding block_emit Placed weight
  block_emit-Keeps null_node p w = put-Keeps _
  block_emit-Keeps (block _ stmts final) p w = record {
    run = block_text-Held stmts final p.0 p.1 (omega arith);
  }
  block_emit-Keeps n p w = h.expr n p (omega arith)

  pub init_emit-Keeps : (n : AstNode) → Placed n → weight n < b → Keeps (init_emit r n)
  init_emit-Keeps n p w = if-Keeps (is_null n) skip-Keeps (put-Keeps _ then h.expr n p w)

-- The array of deferred expressions has 256 places.
push_defer-Grows :
    (r : Emitters) (n : AstNode) (m : ℕ) → Placed n → weight n ≤ m → Grows m (push_defer r n)
unfolding push_defer
push_defer-Grows r n m p w = record {
  run = λ s. elim (Bool-cases (ltb (length s.defer_stack) 256)) [
    | inl e ↦ rw e (
        held (record {
          adds = record { text = []; buf = sym (append-nil s.out.buf); indent = refl };
          extra = n ∷ [];
          stack = refl;
          each = one_more p w none_left;
          fits = λ k.
              omega
                (arith, length-append s.defer_stack (n ∷ []), ltb→lt (length s.defer_stack) 256 e);
        }))
    | inr e ↦ rw e (
        held (
          Kept-Grown (record {
            adds = record { text = []; buf = sym (append-nil s.out.buf); indent = refl };
            stack = refl;
          })))
  ];
}

module _ {b : ℕ} {r : Emitters} (h : Balanced b r) where
  pub stmt_emit-Grows :
      (n : AstNode) → is_line n ≡ true → Placed n → weight n ≤ b → Grows (weight n) (stmt_emit r n)
  unfolding stmt_emit Placed weight
  stmt_emit-Grows null_node l p w = Keeps-Grows skip-Keeps
  stmt_emit-Grows (let_stmt _ _ t n _) l p w = Keeps-Grows (
      if-Keeps (is_null_type t) (put-Keeps _) (h.type t p.0 (omega arith))
      then put-Keeps _
      then putf-Keeps _
      then array_suffix-Keeps h t p.0 (omega arith)
      then init_emit-Keeps h n p.1 (omega arith)
      then put-Keeps _)
  stmt_emit-Grows (assign_stmt _ a c _) l p w = Keeps-Grows (
      h.expr a p.0 (omega arith) then putf-Keeps _ then h.expr c p.1 (omega arith) then put-Keeps _)
  stmt_emit-Grows (return_stmt _ n) l p w = Keeps-Grows (
      put-Keeps _
      then if-Keeps (is_null n) skip-Keeps (put-Keeps _ then h.expr n p (omega arith))
      then put-Keeps _)
  stmt_emit-Grows (break_stmt _ _) l p w = Keeps-Grows (put-Keeps _)
  stmt_emit-Grows (continue_stmt _ _) l p w = Keeps-Grows (put-Keeps _)
  stmt_emit-Grows (defer_stmt _ n) l p w = push_defer-Grows r n _ p (omega arith)
  stmt_emit-Grows (expr_stmt _ n) l p w = Keeps-Grows (h.expr n p (omega arith) then put-Keeps _)
  stmt_emit-Grows (module_decl x0 x1) l p w = h.decl (module_decl x0 x1) l p (omega arith)
  stmt_emit-Grows (import_decl x0 x1 x2 x3 x4) l p w =
      h.decl (import_decl x0 x1 x2 x3 x4) l p (omega arith)
  stmt_emit-Grows (fn_decl x0 x1 x2 x3 x4 x5 x6) l p w =
      h.decl (fn_decl x0 x1 x2 x3 x4 x5 x6) l p (omega arith)
  stmt_emit-Grows (struct_decl x0 x1 x2 x3 x4) l p w =
      h.decl (struct_decl x0 x1 x2 x3 x4) l p (omega arith)
  stmt_emit-Grows (enum_decl x0 x1 x2 x3 x4) l p w =
      h.decl (enum_decl x0 x1 x2 x3 x4) l p (omega arith)
  stmt_emit-Grows (trait_decl x0 x1 x2 x3) l p w = h.decl (trait_decl x0 x1 x2 x3) l p (omega arith)
  stmt_emit-Grows (impl_block x0 x1 x2 x3) l p w = h.decl (impl_block x0 x1 x2 x3) l p (omega arith)
  stmt_emit-Grows (const_decl x0 x1 x2 x3 x4 x5) l p w =
      h.decl (const_decl x0 x1 x2 x3 x4 x5) l p (omega arith)
  stmt_emit-Grows (static_decl x0 x1 x2 x3 x4 x5) l p w =
      h.decl (static_decl x0 x1 x2 x3 x4 x5) l p (omega arith)
  stmt_emit-Grows (type_alias x0 x1 x2 x3) l p w = h.decl (type_alias x0 x1 x2 x3) l p (omega arith)
  stmt_emit-Grows (driver_decl x0 x1 x2 x3 x4) l p w =
      h.decl (driver_decl x0 x1 x2 x3 x4) l p (omega arith)
  stmt_emit-Grows (syscall_decl x0 x1 x2 x3 x4) l p w =
      h.decl (syscall_decl x0 x1 x2 x3 x4) l p (omega arith)
  stmt_emit-Grows n l p w = cc
