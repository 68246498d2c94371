-- ===== src/Parser/Expr.antt =====
-- src/parser/snuk_expr.c: the functions that the rules name, but for those with a body in braces.
use Prim.Native.String.{String}
use snuk.Prelude.{ℕ, zero, suc, ◌+◌, true, false, leb, wild}
use snuk.Lexer.Token
use snuk.Lexer.Token.{TokenType}
use snuk.Parser.Syntax
use snuk.Parser.Syntax.{SnukExpr, SnukVar, Exprs, push_expr}
use snuk.Parser.Rules.{
  precedence_of, precedence_assignment, precedence_unary, InfixFn, infix_rule, no_infix, parse_call,
  parse_binary, parse_assignment, parse_compound_assignment, parse_member,
}
use snuk.Parser.State.{
  P, fault, out_of_rounds, ◌>>=◌, ◌>>◌, pure, ask, parser_error, parser_advance, parser_expect,
  collect, when_closed,
}
use snuk.Parser.Build.{
  build_bool_expr, build_string_literal_expr, build_identifier_expr, build_int_literal_expr,
  build_float_literal_expr, build_comment_expr,
}
use snuk.Parser.Calls.{Calls, snuk_expr_parse}
use snuk.Parser.Var.{comma_unless}

module _ {F : Type 0} where
  -- `nan` and `inf` have no expression yet.
  unfoldable pub primary_of : Token.Token F → P F (SnukExpr F)
  unfolding build_identifier_expr build_int_literal_expr build_float_literal_expr
      build_string_literal_expr build_bool_expr
  primary_of t = elim t.type [
    | Token.identifier ↦ pure (build_identifier_expr t)
    | Token.integer ↦ build_int_literal_expr t.literal
    | Token.float ↦ build_float_literal_expr t.literal
    | Token.string ↦ pure (build_string_literal_expr t)
    | Token.kw_true ↦ pure (build_bool_expr t)
    | Token.kw_false ↦ pure (build_bool_expr t)
    | Token.kw_null ↦ pure Syntax.expr_null
    | Token.kw_nan ↦ pure Syntax.no_expr
    | Token.kw_inf ↦ pure Syntax.no_expr
    | _ ↦ parser_error "unexpected expression" >> pure Syntax.no_expr
  ]

  unfoldable pub primary : P F (SnukExpr F)
  unfolding primary_of
  primary = ask (λ p. p.previous) >>= primary_of

  unfoldable pub comment : P F (SnukExpr F)
  unfolding build_comment_expr
  comment = ask (λ p. build_comment_expr p.previous)

module _ {F : Type 0} (calls : Calls F) where
  unfoldable pub grouping : P F (SnukExpr F)
  unfolding parser_expect
  grouping = do e ← snuk_expr_parse calls; parser_expect Token.rparen "expected ')'"; pure e

  unfoldable pub unary : P F (SnukExpr F)
  unary = do
    op ← ask λ p. p.previous.type
    right ← calls.parse_precedence precedence_unary
    pure (Syntax.expr_unary op right)

  -- An element of a list, or an argument, with the comma behind it.
  unfoldable pub element : TokenType → String → P F (Exprs F → Exprs F)
  unfolding comma_unless push_expr
  element close msg = do
    e ← snuk_expr_parse calls
    comma_unless calls close msg
    pure (λ es. push_expr es e)

  unfoldable pub list : P F (SnukExpr F)
  unfolding element collect when_closed
  list = do
    es ←
        collect calls.rounds Token.rbracket
          (element Token.rbracket "expected ',' or ']' after list element") Syntax.no_exprs
    when_closed Token.rbracket "expected ']' after list elements" Syntax.no_expr
        (pure (Syntax.expr_list es))

  unfoldable pub call : SnukExpr F → P F (SnukExpr F)
  unfolding element collect when_closed
  call left = do
    es ← collect calls.rounds Token.rparen (element Token.rparen "expected comma") Syntax.no_exprs
    when_closed Token.rparen "expected ')'" Syntax.no_expr (pure (Syntax.expr_call left es))

  unfoldable pub binary : SnukExpr F → P F (SnukExpr F)
  unfolding precedence_of
  binary left = do
    op ← ask λ p. p.previous.type
    right ← calls.parse_precedence (precedence_of op + 1)
    pure (Syntax.expr_binary op left right)

  unfoldable pub assignment : SnukExpr F → P F (SnukExpr F)
  assignment left = do
    value ← calls.parse_precedence precedence_assignment
    pure (Syntax.expr_assign left value)

  -- The type of the left side is read without a test for the null pointer.
  unfoldable pub compound_assignment : SnukExpr F → P F (SnukExpr F)
  compound_assignment Syntax.no_expr = λ p. fault wild
  compound_assignment (Syntax.expr_identifier name) = do
    op ← ask λ p. p.previous.type
    value ← calls.parse_precedence precedence_assignment
    pure (Syntax.expr_compound_assign op (Syntax.expr_identifier name) value)
  compound_assignment _ = parser_error "invalid assignment target" >> pure Syntax.no_expr

  unfoldable pub member : SnukExpr F → P F (SnukExpr F)
  unfolding parser_expect primary
  member left = do
    parser_expect Token.identifier "expected a member"
    field ← primary
    pure (Syntax.expr_member left field)

  unfoldable pub infix_fn : InfixFn → SnukExpr F → P F (SnukExpr F)
  unfolding call binary assignment compound_assignment member
  infix_fn no_infix left = λ p. fault wild
  infix_fn parse_call left = call left
  infix_fn parse_binary left = binary left
  infix_fn parse_assignment left = assignment left
  infix_fn parse_compound_assignment left = compound_assignment left
  infix_fn parse_member left = member left

  -- `while (precedence <= get_rule(current)->precedence)`
  unfoldable pub infix_loop : ℕ → ℕ → SnukExpr F → P F (SnukExpr F)
  unfolding infix_fn parser_advance infix_rule precedence_of
  infix_loop zero precedence left = λ p. out_of_rounds
  infix_loop (suc rounds) precedence left =
      ask (λ p. leb precedence (precedence_of p.current.type)) >>= λ more. elim more [
        | false ↦ pure left
        | true ↦
            parser_advance
            >> (ask (λ p. infix_rule p.previous.type) >>= λ ifn.
                infix_fn ifn left >>= λ left. infix_loop rounds precedence left)
      ]
