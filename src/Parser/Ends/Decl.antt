-- ===== src/Parser/Ends/Decl.antt =====
-- The declarations of compiler/src/parser.c come to an end.
use q.Ast.{Attributes}
use q.Common.{ℕ, zero, suc, ◌≤◌, ◌<◌, Bool, true, false, [], ◌∷◌, Bytes, ◌||◌, ◌≡◌, refl, arith}
use q.Parser.Decl.{
  attribute_args, parse_attributes, typed_slot, self_type, self_param, named_param, fn_param,
  fn_signature, fn_end, interrupt_fn, parse_fn_decl, struct_field, struct_fields, parse_struct_decl,
  parse_module_decl, import_items, parse_import_decl, parse_const_decl, driver_round, syscall_param,
  parse_syscall_decl, loose_statement,
}
use q.Parser.Ends.Primary.{skip-Ends}
use q.Parser.Ends.Stmt.{matches-Ends, end_of_statement-Ends, parse_statement-Ends}
use q.Parser.Ends.Types.{Ready, arrow_type-Ends}
use q.Parser.Ends.{
  Fine, finished, Ends, bind-Ends, then-Ends, pure-Ends, look-Ends, if-Ends, when-Ends,
  overrun-Ends, on_check-Ends, on_match-Ends, first_match-Ends, ◌&◌, no_rows, none_at_eof,
  step-Ends, expect-Ends, comma_list-Ends, push-Ends,
}
use q.Parser.Loops.{closes}
use q.Parser.State.{Parser, Outcome, done, synchronize, Parse, check, name_or_kind}
use q.Parser.Recovery.{Synchronized, synchronize-Synchronized}
use q.Parser.Types.{Routines}
use q.Token.Kind.{TokenKind, kind_eq, Span}

from-Synchronized :
    {p : Parser} {o : Outcome (Unit {0})}
    → (q : Parser) × (o ≡ done tt q) × Synchronized p q
    → Fine p o
from-Synchronized (q, e, s) = rw e (finished s.steps)

module _ {b : ℕ} where
  synchronize-Ends : Ends b synchronize
  synchronize-Ends = record { run = λ p i j. from-Synchronized (synchronize-Synchronized p i) }

  attribute_args-Ends : Ends b attribute_args
  unfolding kind_eq
  attribute_args-Ends =
      on_match-Ends _ refl (λ c k. then-Ends (skip-Ends (check TokenKind.rparen)) (expect-Ends _ _))
        pure-Ends

pub parse_attributes-Ends : {b : ℕ} (room : ℕ) → Ends b (parse_attributes room)
unfolding parse_attributes kind_eq
parse_attributes-Ends zero = if-Ends (check TokenKind.hash) overrun-Ends pure-Ends
parse_attributes-Ends (suc room) =
    on_match-Ends _ refl
      (λ c k. then-Ends (expect-Ends _ _) (
        look-Ends λ q. then-Ends step-Ends (
          then-Ends attribute_args-Ends (
            then-Ends (expect-Ends _ _)
              (bind-Ends (parse_attributes-Ends room) λ rest. pure-Ends)))))
      pure-Ends

module _ {b : ℕ} {r : Routines} (h : (c : ℕ) → c ≤ b → Ready c r) where
  here : Ready b r
  here = h b (omega arith)

  less : (c : ℕ) → c < b → Ready c r
  less c k = h c (omega (arith, k))

  pub typed_slot-Ends :
      (msg : Bytes) (span : Span) (is_pub : Bool) → Ends b (typed_slot r msg span is_pub)
  typed_slot-Ends msg span is_pub = look-Ends λ p.
      then-Ends (expect-Ends _ _)
        (then-Ends (expect-Ends _ _) (bind-Ends here.type λ type. pure-Ends))

  self_type-Ends : (span : Span) → Ends b (self_type r span)
  unfolding kind_eq
  self_type-Ends span =
      bind-Ends (on_match-Ends _ refl (λ c k. (less c k).type) pure-Ends) λ type. pure-Ends

  named_param-Ends : (span : Span) → Ends b (named_param r span)
  named_param-Ends span = look-Ends λ p.
      then-Ends (expect-Ends _ _)
        (then-Ends (expect-Ends _ _) (bind-Ends here.type λ type. pure-Ends))

  pub parse_const_decl-Ends : (is_pub : Bool) → Ends b (parse_const_decl r is_pub)
  parse_const_decl-Ends is_pub = look-Ends λ p. then-Ends (expect-Ends _ _) (
      then-Ends (expect-Ends _ _) (
        bind-Ends here.type λ type.
          then-Ends (expect-Ends _ _)
            (bind-Ends (here.binary 0) λ value. then-Ends end_of_statement-Ends pure-Ends)))

  pub parse_module_decl-Ends : Ends b (parse_module_decl r)
  parse_module_decl-Ends =
      look-Ends λ p. bind-Ends (here.binary 0) λ path. then-Ends end_of_statement-Ends pure-Ends

  struct_field-Ends : Ends b (struct_field r)
  unfolding kind_eq
  struct_field-Ends =
      look-Ends
        λ p. bind-Ends (matches-Ends _ refl) λ is_pub. typed_slot-Ends _ p.current.span is_pub

  syscall_param-Ends : Ends b (syscall_param r)
  syscall_param-Ends = look-Ends λ p. typed_slot-Ends _ p.current.span false

  fn_end-Ends : Ends b (fn_end r)
  fn_end-Ends = on_check-Ends _ here.block (then-Ends (expect-Ends _ _) pure-Ends)

  pub parse_syscall_decl-Ends : Ends b (parse_syscall_decl r)
  parse_syscall_decl-Ends = look-Ends λ p. then-Ends (expect-Ends _ _) (
      then-Ends (expect-Ends _ _) (
        bind-Ends (comma_list-Ends 32 _ _ true syscall_param-Ends) λ ps.
          then-Ends (expect-Ends _ _) (
            bind-Ends (arrow_type-Ends less)
              λ return_type. bind-Ends here.block λ body. pure-Ends)))

  pub loose_statement-Ends : Ends b (loose_statement r)
  unfolding loose_statement
  loose_statement-Ends =
      bind-Ends (parse_statement-Ends (record { here = here.binary; less = less }))
        λ n. then-Ends (if-Ends (λ p. p.panic_mode) synchronize-Ends (pure-Ends {a = tt})) pure-Ends

module _ {b : ℕ} {r : Routines} (h : (c : ℕ) → c ≤ b → Ready c r) where
  pub upto : (c : ℕ) → c < b → (d : ℕ) → d ≤ c → Ready d r
  upto c k d l = h d (omega (arith, k, l))

  self_param-Ends : (span : Span) → Ends b (self_param r span)
  unfolding kind_eq
  self_param-Ends span =
      on_match-Ends _ refl
        (λ c k.
          bind-Ends (matches-Ends _ refl)
            λ is_mut. then-Ends (expect-Ends _ _) (self_type-Ends (upto c k) span))
        (then-Ends step-Ends (self_type-Ends h span))

  fn_param-Ends : Ends b (fn_param r)
  unfolding fn_param
  fn_param-Ends = look-Ends λ p.
      when-Ends (check TokenKind.kw_self p || check TokenKind.amp p)
        (self_param-Ends p.current.span) (named_param-Ends h p.current.span)

  fn_signature-Ends : Ends b (fn_signature r)
  fn_signature-Ends = then-Ends (expect-Ends _ _) (
      then-Ends (expect-Ends _ _) (
        bind-Ends (comma_list-Ends 64 _ _ true fn_param-Ends)
          λ ps. then-Ends (expect-Ends _ _) pure-Ends))

  pub parse_fn_decl-Ends :
      (is_pub : Bool) (attribs : Attributes) → Ends b (parse_fn_decl r is_pub attribs)
  unfolding parse_fn_decl interrupt_fn
  parse_fn_decl-Ends is_pub attribs = look-Ends λ p.
      then-Ends
        (when-Ends (kind_eq p.previous.kind TokenKind.kw_interrupt) (expect-Ends _ _) pure-Ends)
        (look-Ends λ q. bind-Ends fn_signature-Ends λ ps.
          bind-Ends (arrow_type-Ends (less h))
            λ return_type. bind-Ends (fn_end-Ends h) λ body. pure-Ends)

  import_items-Ends : Ends b (import_items r)
  unfolding kind_eq
  import_items-Ends =
      on_match-Ends _ refl
        (λ c k.
          bind-Ends
            (comma_list-Ends 64 _ _ true
              (look-Ends λ p. then-Ends step-Ends (pure-Ends {a = name_or_kind p})))
            λ items. then-Ends (expect-Ends _ _) pure-Ends)
        pure-Ends

  pub parse_import_decl-Ends : Ends b (parse_import_decl r)
  parse_import_decl-Ends = look-Ends λ p.
      bind-Ends ((here h).binary 0)
        λ path. bind-Ends import_items-Ends λ items. then-Ends end_of_statement-Ends pure-Ends

module _ {r : Routines} where
  struct_fields-Ends :
      (room : ℕ) {b : ℕ} → ((c : ℕ) → c ≤ b → Ready c r) → Ends b (struct_fields r room)
  unfolding struct_fields kind_eq
  struct_fields-Ends zero h = if-Ends (closes TokenKind.rbrace) pure-Ends overrun-Ends
  struct_fields-Ends (suc room) h = if-Ends (closes TokenKind.rbrace) pure-Ends (
      bind-Ends (struct_field-Ends h) λ f.
        on_match-Ends _ refl (λ c k. push-Ends f (struct_fields-Ends room (upto h c k))) pure-Ends)

module _ {b : ℕ} {r : Routines} (h : (c : ℕ) → c ≤ b → Ready c r) where
  pub parse_struct_decl-Ends :
      (is_pub : Bool) (attribs : Attributes) → Ends b (parse_struct_decl r is_pub attribs)
  parse_struct_decl-Ends is_pub attribs = look-Ends λ p. then-Ends (expect-Ends _ _) (
      then-Ends (expect-Ends _ _)
        (bind-Ends (struct_fields-Ends 128 h) λ slots. then-Ends (expect-Ends _ _) pure-Ends))

module _ {b : ℕ} {A : Type 0} where
  pub driver_round-Ends :
      (r : Routines) (method : Bool → Attributes → Parse A) (member : Span → Bool → Parse A)
      → ((c : ℕ) → c < b → (is_pub : Bool) (attribs : Attributes) → Ends c (method is_pub attribs))
      → ((span : Span) (is_pub : Bool) → Ends b (member span is_pub))
      → Ends b (driver_round r method member)
  unfolding kind_eq none_at_eof
  driver_round-Ends r method member h k = bind-Ends (parse_attributes-Ends 32) λ attribs.
      bind-Ends (matches-Ends _ refl) λ is_pub. look-Ends λ p.
        first_match-Ends
          ((TokenKind.kw_fn, method is_pub attribs)
            ∷ (TokenKind.kw_interrupt, method is_pub attribs)
            ∷ [])
          refl (λ c l. h c l is_pub attribs & h c l is_pub attribs & no_rows)
          (k p.current.span is_pub)
