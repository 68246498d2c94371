-- ===== src/Parser/Kinds.antt =====
-- What the rules of src/parser/snuk_expr.c say of the tokens of the grammar.
use snuk.Prelude.{ℕ, ◌≤◌, Bool, false, ◌||◌, ◌≡◌, refl, List, [], ◌∷◌, arith, ◌==◌}
use snuk.Lexer.Token
use snuk.Lexer.Token.{TokenType}
use snuk.Parser.Enum.{same_type}
use snuk.Parser.Rules.{
  precedence_of, infix_rule, prefix_rule, parse_binary, parse_compound_assignment, parse_unary,
}
use snuk.Parser.Syntax.{SnukExpr}
use snuk.Parser.Grammar
use snuk.Parser.Grammar.{BinaryOp, UnaryOp, CompoundOp, Atom, Derives}
use snuk.Parser.Stream.{◌▸◌, append-in_front}

-- The tokens that start an item which is no expression.
abbrev pub is_keyword : TokenType → Bool
is_keyword t =
    same_type t Token.kw_var
    || same_type t Token.kw_const
    || same_type t Token.kw_return
    || same_type t Token.kw_continue
    || same_type t Token.kw_break
    || same_type t Token.kw_print
    || same_type t Token.kw_extend
    || same_type t Token.kw_interface

-- The token is an error, ends an expression or an item, or starts another item than an expression.
abbrev pub ends : TokenType → Bool
ends t =
    same_type t Token.error
    || same_type t Token.eof
    || same_type t Token.rparen
    || same_type t Token.rbracket
    || same_type t Token.semicolon
    || same_type t Token.vsemicolon
    || is_keyword t

pub ends-is_keyword : (t : TokenType) → ends t ≡ false → is_keyword t ≡ false
ends-is_keyword t h = ground arith

pub ends-item_end :
    (t : TokenType)
    → ends t ≡ false
    → (same_type t Token.semicolon || same_type t Token.vsemicolon || same_type t Token.eof) ≡ false
ends-item_end t h = ground arith

pub unary_lem : {t : TokenType} → UnaryOp t → (ends t ≡ false) × (prefix_rule t ≡ parse_unary)
unfolding same_type prefix_rule
unary_lem Grammar.op_plus = (refl, refl)
unary_lem Grammar.op_minus = (refl, refl)
unary_lem Grammar.op_bang = (refl, refl)
unary_lem Grammar.op_not = (refl, refl)
unary_lem Grammar.op_tilde = (refl, refl)

pub binary_lem :
    {k : ℕ} {t : TokenType}
    → BinaryOp k t
    → (same_type t Token.error ≡ false)
      × (precedence_of t ≡ k)
      × (infix_rule t ≡ parse_binary)
      × (2 ≤ k)
unfolding same_type precedence_of infix_rule
binary_lem Grammar.op_pipe_pipe = (refl, refl, refl, omega arith)
binary_lem Grammar.op_or = (refl, refl, refl, omega arith)
binary_lem Grammar.op_amp_amp = (refl, refl, refl, omega arith)
binary_lem Grammar.op_and = (refl, refl, refl, omega arith)
binary_lem Grammar.op_pipe = (refl, refl, refl, omega arith)
binary_lem Grammar.op_caret = (refl, refl, refl, omega arith)
binary_lem Grammar.op_amp = (refl, refl, refl, omega arith)
binary_lem Grammar.op_equal = (refl, refl, refl, omega arith)
binary_lem Grammar.op_bang_equal = (refl, refl, refl, omega arith)
binary_lem Grammar.op_less = (refl, refl, refl, omega arith)
binary_lem Grammar.op_less_equal = (refl, refl, refl, omega arith)
binary_lem Grammar.op_greater = (refl, refl, refl, omega arith)
binary_lem Grammar.op_greater_equal = (refl, refl, refl, omega arith)
binary_lem Grammar.op_lshift = (refl, refl, refl, omega arith)
binary_lem Grammar.op_rshift = (refl, refl, refl, omega arith)
binary_lem Grammar.op_plus = (refl, refl, refl, omega arith)
binary_lem Grammar.op_minus = (refl, refl, refl, omega arith)
binary_lem Grammar.op_star = (refl, refl, refl, omega arith)
binary_lem Grammar.op_slash = (refl, refl, refl, omega arith)
binary_lem Grammar.op_percent = (refl, refl, refl, omega arith)

pub compound_lem :
    {t : TokenType}
    → CompoundOp t
    → (same_type t Token.error ≡ false)
      × (precedence_of t ≡ 1)
      × (infix_rule t ≡ parse_compound_assignment)
unfolding same_type precedence_of infix_rule
compound_lem Grammar.op_plus_assign = (refl, refl, refl)
compound_lem Grammar.op_minus_assign = (refl, refl, refl)
compound_lem Grammar.op_star_assign = (refl, refl, refl)
compound_lem Grammar.op_slash_assign = (refl, refl, refl)
compound_lem Grammar.op_percent_assign = (refl, refl, refl)
compound_lem Grammar.op_lshift_assign = (refl, refl, refl)
compound_lem Grammar.op_rshift_assign = (refl, refl, refl)
compound_lem Grammar.op_pipe_assign = (refl, refl, refl)
compound_lem Grammar.op_amp_assign = (refl, refl, refl)
compound_lem Grammar.op_caret_assign = (refl, refl, refl)

pub no_unary_precedence : (t : TokenType) → (precedence_of t == 12) ≡ false
unfolding precedence_of
no_unary_precedence Token.eof = refl
no_unary_precedence _ = refl

module _ {F : Type 0} where
  Atom-ends : {t : TokenType} {tok : Token.Token F} {e : SnukExpr F} → Atom t tok e → ends t ≡ false
  unfolding same_type
  Atom-ends Grammar.atom_name = refl
  Atom-ends (Grammar.atom_int _) = refl
  Atom-ends (Grammar.atom_float _) = refl
  Atom-ends Grammar.atom_string = refl
  Atom-ends Grammar.atom_true = refl
  Atom-ends Grammar.atom_false = refl
  Atom-ends Grammar.atom_null = refl
  Atom-ends Grammar.atom_self = refl

  -- An expression starts with a token that ends none.
  pub Derives-starts :
      {k : ℕ} {ts : List (Token.Token F)} {e : SnukExpr F}
      → Derives k ts e
      → (s : ℕ → Token.Token F) → ends ((ts ▸ s) 0).type ≡ false
  unfolding same_type
  Derives-starts (Grammar.derives_atom t e a) s = Atom-ends a
  Derives-starts (Grammar.derives_group l r ts e h d h') s = rw h refl
  Derives-starts (Grammar.derives_list l ts es h d) s = rw h refl
  Derives-starts (Grammar.derives_call l fs ts f es d h ds) s =
      rw (append-in_front fs (l ∷ ts) s) (Derives-starts d ((l ∷ ts) ▸ s))
  Derives-starts (Grammar.derives_member d n ts e h a b) s =
      rw (append-in_front ts (d ∷ n ∷ []) s) (Derives-starts h ((d ∷ n ∷ []) ▸ s))
  Derives-starts (Grammar.derives_unary o ts e h d) s = (unary_lem h).0
  Derives-starts (Grammar.derives_binary k o ls rs l r d h d') s =
      rw (append-in_front ls (o ∷ rs) s) (Derives-starts d ((o ∷ rs) ▸ s))
  Derives-starts (Grammar.derives_assign o ls rs l r d h d') s =
      rw (append-in_front ls (o ∷ rs) s) (Derives-starts d ((o ∷ rs) ▸ s))
  Derives-starts (Grammar.derives_compound o t ls rs r d h d') s =
      rw (append-in_front ls (o ∷ rs) s) (Derives-starts d ((o ∷ rs) ▸ s))
  Derives-starts (Grammar.derives_up j k ts e h d) s = Derives-starts d s
