-- ===== src/Parser/Loops.antt =====
-- The loops of compiler/src/parser.c that fill a local array: `room` is what is left of it, and a
-- write behind its end is an overrun.
use q.Ast.{AstNode, AstType, Nodes, no_nodes, node, Types, no_types, type_item}
use q.Common.{ℕ, zero, suc, Bool, false, List, [], ◌∷◌, Bytes, ◌||◌, if◌then◌else◌}
use q.Parser.State.{Parser, done, overrun, Parse, ◌>>=◌, ◌>>◌, pure, check, expect}
use q.Token.Kind.{TokenKind}

-- `check(p, close) || check(p, TOK_EOF)`.
unfoldable pub closes : TokenKind → Parser → Bool
closes close p = check close p || check TokenKind.eof p

module _ {A : Type 0} where
  abbrev pub push : A → Parse (List A) → Parse (List A)
  push x rest = do xs ← rest; pure (x ∷ xs)

  -- `while (!check(p, close) && !check(p, TOK_EOF)) { if (count > 0) expect(p, TOK_COMMA, msg);
  -- array[count++] = elem(p); }`; `first` says that `count` is 0.
  unfoldable pub comma_list : ℕ → TokenKind → Bytes → Parse A → Bool → Parse (List A)
  comma_list zero close msg elem first p = if closes close p then done [] p else overrun
  comma_list (suc room) close msg elem first p =
      if closes close p
      then done [] p
      else ((if first then pure tt else expect TokenKind.comma msg)
            >> (elem >>= λ x. push x (comma_list room close msg elem false)))
          p

  -- The loop of `parse_block`: it ends when the array is full.
  unfoldable pub capped_list : ℕ → TokenKind → Parse A → Parse (List A)
  capped_list zero close elem p = done [] p
  capped_list (suc room) close elem p =
      if closes close p then done [] p else (elem >>= λ x. push x (capped_list room close elem)) p

-- The copy of an array into the arena.
abbrev pub node_array : List AstNode → Nodes
node_array [] = no_nodes
node_array (n ∷ ns) = node n (node_array ns)

abbrev pub type_array : List AstType → Types
type_array [] = no_types
type_array (t ∷ ts) = type_item t (type_array ts)
