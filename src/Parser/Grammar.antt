-- ===== src/Parser/Grammar.antt =====
-- A grammar of the expressions without braces, in the levels of the enumeration `Precedence`: what
-- src/parser/snuk_expr.c parses, described without the parser.
use snuk.Prelude.{ℕ, ◌+◌, ◌≤◌, true, false, List, [], ◌∷◌, ◌++◌, ◌≡◌}
use snuk.Lexer.Token
use snuk.Lexer.Token.{TokenType, Literal, int, double}
use snuk.Parser.Syntax
use snuk.Parser.Syntax.{SnukExpr, Exprs}
use snuk.Parser.State.{text_of, parser_copy_string_view}

-- The binary operators of a level.
pub data BinaryOp : ℕ → TokenType → Type 0 where
  op_pipe_pipe : BinaryOp 2 Token.pipe_pipe
  op_or : BinaryOp 2 Token.kw_or
  op_amp_amp : BinaryOp 3 Token.amp_amp
  op_and : BinaryOp 3 Token.kw_and
  op_pipe : BinaryOp 4 Token.pipe
  op_caret : BinaryOp 5 Token.caret
  op_amp : BinaryOp 6 Token.amp
  op_equal : BinaryOp 7 Token.equal
  op_bang_equal : BinaryOp 7 Token.bang_equal
  op_less : BinaryOp 8 Token.less
  op_less_equal : BinaryOp 8 Token.less_equal
  op_greater : BinaryOp 8 Token.greater
  op_greater_equal : BinaryOp 8 Token.greater_equal
  op_lshift : BinaryOp 9 Token.lshift
  op_rshift : BinaryOp 9 Token.rshift
  op_plus : BinaryOp 10 Token.plus
  op_minus : BinaryOp 10 Token.minus
  op_star : BinaryOp 11 Token.star
  op_slash : BinaryOp 11 Token.slash
  op_percent : BinaryOp 11 Token.percent

pub data UnaryOp : TokenType → Type 0 where
  op_plus : UnaryOp Token.plus
  op_minus : UnaryOp Token.minus
  op_bang : UnaryOp Token.bang
  op_not : UnaryOp Token.kw_not
  op_tilde : UnaryOp Token.tilde

pub data CompoundOp : TokenType → Type 0 where
  op_plus_assign : CompoundOp Token.plus_assign
  op_minus_assign : CompoundOp Token.minus_assign
  op_star_assign : CompoundOp Token.star_assign
  op_slash_assign : CompoundOp Token.slash_assign
  op_percent_assign : CompoundOp Token.percent_assign
  op_lshift_assign : CompoundOp Token.lshift_assign
  op_rshift_assign : CompoundOp Token.rshift_assign
  op_pipe_assign : CompoundOp Token.pipe_assign
  op_amp_assign : CompoundOp Token.amp_assign
  op_caret_assign : CompoundOp Token.caret_assign

-- The brackets that close a list of expressions.
pub data Closing : TokenType → Type 0 where
  closing_paren : Closing Token.rparen
  closing_bracket : Closing Token.rbracket

module _ {F : Type 0} where
  abbrev pub name_expr : Token.Token F → SnukExpr F
  name_expr t = Syntax.expr_identifier (parser_copy_string_view (text_of t))

  -- The expressions of one token.
  pub data Atom : TokenType → Token.Token F → SnukExpr F → Type 0 where
    atom_name : {t : Token.Token F} → Atom Token.identifier t (name_expr t)
    atom_int :
        {t : Token.Token F} {n : ℕ} → t.literal ≡ int n → Atom Token.integer t (Syntax.expr_int n)
    atom_float :
        {t : Token.Token F} {x : F}
        → t.literal ≡ double x
        → Atom Token.float t (Syntax.expr_float x)
    atom_string :
        {t : Token.Token F}
        → Atom Token.string t (Syntax.expr_string (parser_copy_string_view (text_of t)))
    atom_true : {t : Token.Token F} → Atom Token.kw_true t (Syntax.expr_bool true)
    atom_false : {t : Token.Token F} → Atom Token.kw_false t (Syntax.expr_bool false)
    atom_null : {t : Token.Token F} → Atom Token.kw_null t Syntax.expr_null
    atom_self : {t : Token.Token F} → Atom Token.kw_self t Syntax.expr_self

  -- `Derives k ts e`: the tokens are the expression at the level `k` or a higher one. A binary operator
  -- associates to the left, an assignment to the right. `Sequence`: expressions with commas between them
  -- and perhaps behind the last, and the closing bracket.
  mutual
    pub data Derives : ℕ → List (Token.Token F) → SnukExpr F → Type 0 where
      derives_atom : (t : Token.Token F) (e : SnukExpr F) → Atom t.type t e → Derives 13 (t ∷ []) e
      derives_group :
          (l r : Token.Token F) (ts : List (Token.Token F)) (e : SnukExpr F)
          → l.type ≡ Token.lparen
          → Derives 1 ts e
          → r.type ≡ Token.rparen
          → Derives 13 (l ∷ (ts ++ (r ∷ []))) e
      derives_list :
          (l : Token.Token F) (ts : List (Token.Token F)) (es : Exprs F)
          → l.type ≡ Token.lbracket
          → Sequence Token.rbracket ts es
          → Derives 13 (l ∷ ts) (Syntax.expr_list es)
      derives_call :
          (l : Token.Token F) (fs ts : List (Token.Token F)) (f : SnukExpr F) (es : Exprs F)
          → Derives 13 fs f
          → l.type ≡ Token.lparen
          → Sequence Token.rparen ts es
          → Derives 13 (fs ++ (l ∷ ts)) (Syntax.expr_call f es)
      derives_member :
          (d n : Token.Token F) (ts : List (Token.Token F)) (e : SnukExpr F)
          → Derives 13 ts e
          → d.type ≡ Token.dot
          → n.type ≡ Token.identifier
          → Derives 13 (ts ++ (d ∷ n ∷ [])) (Syntax.expr_member e (name_expr n))
      derives_unary :
          (o : Token.Token F) (ts : List (Token.Token F)) (e : SnukExpr F)
          → UnaryOp o.type
          → Derives 12 ts e
          → Derives 12 (o ∷ ts) (Syntax.expr_unary o.type e)
      derives_binary :
          (k : ℕ) (o : Token.Token F) (ls rs : List (Token.Token F)) (l r : SnukExpr F)
          → Derives k ls l
          → BinaryOp k o.type
          → Derives (k + 1) rs r
          → Derives k (ls ++ (o ∷ rs)) (Syntax.expr_binary o.type l r)
      derives_assign :
          (o : Token.Token F) (ls rs : List (Token.Token F)) (l r : SnukExpr F)
          → Derives 2 ls l
          → o.type ≡ Token.assign
          → Derives 1 rs r
          → Derives 1 (ls ++ (o ∷ rs)) (Syntax.expr_assign l r)
      derives_compound :
          (o t : Token.Token F) (ls rs : List (Token.Token F)) (r : SnukExpr F)
          → Derives 2 ls (name_expr t)
          → CompoundOp o.type
          → Derives 1 rs r
          → Derives 1 (ls ++ (o ∷ rs)) (Syntax.expr_compound_assign o.type (name_expr t) r)
      derives_up :
          (j k : ℕ) (ts : List (Token.Token F)) (e : SnukExpr F)
          → k ≤ j
          → Derives j ts e
          → Derives k ts e

    pub data Sequence : TokenType → List (Token.Token F) → Exprs F → Type 0 where
      sequence_end :
          (c : TokenType) (t : Token.Token F) → t.type ≡ c → Sequence c (t ∷ []) Syntax.no_exprs
      sequence_last :
          (c : TokenType) (t : Token.Token F) (ts : List (Token.Token F)) (e : SnukExpr F)
          → Derives 1 ts e
          → t.type ≡ c
          → Sequence c (ts ++ (t ∷ [])) (Syntax.exprs e Syntax.no_exprs)
      sequence_more :
          (c : TokenType) (t : Token.Token F) (ts us : List (Token.Token F)) (e : SnukExpr F)
          (es : Exprs F)
          → Derives 1 ts e
          → t.type ≡ Token.comma
          → Sequence c us es
          → Sequence c (ts ++ (t ∷ us)) (Syntax.exprs e es)
