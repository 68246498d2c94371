-- ===== src/Parser/Block.antt =====
-- src/parser/snuk_expr.c: expressions with blocks, and the declarations of functions and types.
use snuk.Prelude.{Bool, true, false, ◌||◌}
use snuk.Text.{StringView}
use snuk.Lexer.Token
use snuk.Lexer.Token.{TokenType}
use snuk.Lexer.Cursor.{no_text}
use snuk.Types
use snuk.Types.{SnukType}
use snuk.Parser.Syntax
use snuk.Parser.Syntax.{
  SnukExpr, SnukItem, SnukVar, Exprs, Items, Vars, push_expr, push_item, push_var,
}
use snuk.Parser.Enum.{same_type}
use snuk.Parser.State.{
  Parser, P, ◌>>=◌, ◌>>◌, pure, ask, check, parser_error, parser_check, parser_match, parser_expect,
  parser_expect_item_end, collect, when_closed, text_of,
}
use snuk.Parser.Build.{
  build_fn_type, build_named_type, build_block_expr, build_while_expr, build_fn_expr,
  build_type_expr, build_type_inst_expr,
}
use snuk.Parser.Calls.{Calls, snuk_expr_parse}
use snuk.Parser.Var.{type_or_any, snuk_var_parse, comma_unless}
use snuk.Parser.Expr.{primary}

module _ {F : Type 0} (calls : Calls F) where
  unfoldable pub block_item : P F (Items F → Items F)
  unfolding build_block_expr
  block_item = do i ← calls.snuk_item_parse; pure (λ is. build_block_expr is i)

  unfoldable pub block : P F (SnukExpr F)
  unfolding block_item collect when_closed
  block = do
    is ← collect calls.rounds Token.rbrace block_item Syntax.no_items
    when_closed Token.rbrace "block was not closed" Syntax.no_expr (pure (Syntax.expr_block is))

  unfoldable pub else_part : Bool → P F (SnukExpr F)
  unfolding parser_match parser_expect block
  else_part false = pure Syntax.no_expr
  else_part true = parser_match Token.kw_if >>= λ again. elim again [
    | true ↦ calls.parse_if
    | false ↦ parser_expect Token.lbrace "expected '{'" >> block
  ]

  unfoldable pub if_else : P F (SnukExpr F)
  unfolding parser_expect parser_match block else_part
  if_else = do
    condition ← snuk_expr_parse calls
    parser_expect Token.lbrace "expected '{'"
    then_block ← block
    has_else ← parser_match Token.kw_else
    else_block ← else_part has_else
    pure (Syntax.expr_if condition then_block else_block)

  unfoldable pub while_loop : P F (SnukExpr F)
  unfolding same_type parser_expect block build_while_expr
  while_loop = ask (λ p. same_type p.previous.type Token.kw_do) >>= λ is_do. elim is_do [
    | true ↦ do
      parser_expect Token.lbrace "expected '{'"
      body ← block
      parser_expect Token.kw_while "expected while"
      condition ← snuk_expr_parse calls
      pure (build_while_expr condition body true)
    | false ↦ do
      condition ← snuk_expr_parse calls
      parser_expect Token.lbrace "expected '{'"
      body ← block
      pure (build_while_expr condition body false)
  ]

  -- An expression, unless the token that ends its place is there.
  abbrev optional_expr : TokenType → P F (SnukExpr F)
  optional_expr stop = parser_check stop >>= λ empty. elim empty [
    | true ↦ pure Syntax.no_expr
    | false ↦ snuk_expr_parse calls
  ]

  -- The condition, the update and the body of a loop in the style of C.
  unfoldable pub for_rest : SnukItem F → P F (SnukExpr F)
  unfolding parser_expect block
  for_rest init = do
    condition ← optional_expr Token.semicolon
    parser_expect Token.semicolon "expected ';' after condition"
    update ← optional_expr Token.lbrace
    parser_expect Token.lbrace "expected body of for loop"
    body ← block
    pure (Syntax.expr_for init condition update body)

  -- Cases 4 and 5: `for condition { ... }`, and an expression that is the initializer.
  unfoldable pub for_expr : P F (SnukExpr F)
  unfolding for_rest parser_expect block
  for_expr = snuk_expr_parse calls >>= λ first. parser_check Token.lbrace >>= λ is_body.
      elim is_body [
        | true ↦ do
          parser_expect Token.lbrace "expected body of for loop"
          body ← block
          pure (Syntax.expr_for Syntax.no_item first Syntax.no_expr body)
        | false ↦ do
          parser_expect Token.semicolon "expected ';' or '{' after for expression"
          for_rest (Syntax.item_expr first)
      ]

  unfoldable pub for_loop : P F (SnukExpr F)
  unfolding parser_match block for_rest for_expr
  for_loop = parser_match Token.lbrace >>= λ is_body. elim is_body [
    | true ↦ do
      body ← block
      pure (Syntax.expr_for Syntax.no_item Syntax.no_expr Syntax.no_expr body)
    | false ↦ parser_check Token.kw_var >>= λ declares. elim declares [
      | true ↦ calls.snuk_item_parse >>= for_rest
      | false ↦ parser_match Token.semicolon >>= λ no_init. elim no_init [
        | true ↦ for_rest Syntax.no_item
        | false ↦ for_expr
      ]
    ]
  ]

  -- The name of a declaration, which may be left out.
  abbrev name_if : Bool → P F StringView
  name_if true = ask (λ p. text_of p.previous)
  name_if false = pure no_text

  unfoldable pub fn_param : P F (Vars F × SnukType → Vars F × SnukType)
  unfolding snuk_var_parse comma_unless build_fn_type push_var
  fn_param = do
    v ← snuk_var_parse calls false
    comma_unless calls Token.rparen "expected comma"
    pure (λ r. (push_var (r.0) v, build_fn_type (r.1) (type_of v) Types.no_type))
    where
      type_of : SnukVar F → SnukType
      type_of (Syntax.snuk_var name t value) = t

  unfoldable pub fn_expr : P F (SnukExpr F)
  unfolding parser_match parser_expect fn_param collect when_closed build_fn_type block
      build_fn_expr
  fn_expr = do
    named ← parser_match Token.identifier
    name ← name_if named
    parser_expect Token.lparen "expected '('"
    r ←
        collect calls.rounds Token.rparen fn_param
          (Syntax.no_vars, build_fn_type Types.no_type Types.no_type Types.no_type)
    when_closed Token.rparen "expected ')'" Syntax.no_expr do
      arrow ← parser_match Token.arrow
      ret ← type_or_any calls arrow
      parser_expect Token.lbrace "expected body of function"
      body ← block
      pure (build_fn_expr (r.0) body name (build_fn_type (r.1) Types.no_type ret))

  -- What stands in a type or in an extension of one: a declaration.
  abbrev pub declares : Parser F → Bool
  declares p =
      check Token.kw_var p || check Token.kw_const p || check Token.kw_fn p || check Token.kw_type p

  -- A member, which `push` adds; another token is an error, and stays the current one.
  unfoldable pub type_member : (Items F → SnukItem F → Items F) → P F (Items F → Items F)
  unfolding same_type
  type_member push = ask declares >>= λ found. elim found [
    | true ↦ do i ← calls.snuk_item_parse; pure (λ is. push is i)
    | false ↦ do parser_error "unexpected token"; pure (λ is. is)
  ]

  unfoldable pub type_expr : StringView → P F (SnukExpr F)
  unfolding parser_expect type_member push_item collect when_closed build_type_expr
  type_expr name = do
    parser_expect Token.lbrace "expected '{'"
    is ← collect calls.rounds Token.rbrace (type_member push_item) Syntax.no_items
    when_closed Token.rbrace "expected '}'" Syntax.no_expr
        (pure (build_type_expr is name Types.type_type))

  unfoldable pub member_value : P F (Exprs F → Exprs F)
  unfolding parser_expect primary parser_expect_item_end push_expr
  member_value = do
    parser_expect Token.identifier "expected an member name"
    identifier ← primary
    parser_expect Token.colon "expected ':'"
    value ← snuk_expr_parse calls
    parser_expect_item_end
    pure (λ es. push_expr es (Syntax.expr_assign identifier value))

  -- The name of an instance, with the `=` behind it, which may be left out.
  unfoldable pub instance_name : Bool → P F StringView
  unfolding parser_match
  instance_name false = pure no_text
  instance_name true = do
    name ← ask λ p. text_of p.previous
    _ ← parser_match Token.assign
    pure name

  unfoldable pub type_inst : SnukType → P F (SnukExpr F)
  unfolding parser_match parser_expect instance_name member_value collect when_closed
      build_type_inst_expr
  type_inst t = do
    named ← parser_match Token.identifier
    name ← instance_name named
    parser_expect Token.lbrace "expected '{'"
    es ← collect calls.rounds Token.rbrace member_value Syntax.no_exprs
    when_closed Token.rbrace "expected '}'" Syntax.no_expr (pure (build_type_inst_expr t es name))

  abbrev declares_next : Parser F → Bool
  declares_next p =
      same_type p.next.type Token.kw_var
      || same_type p.next.type Token.kw_const
      || same_type p.next.type Token.kw_fn
      || same_type p.next.type Token.kw_type

  unfoldable pub type_token : P F (SnukExpr F)
  unfolding same_type parser_match type_expr type_inst build_named_type
  type_token = parser_match Token.identifier >>= λ named. elim named [
    | false ↦ type_expr no_text
    | true ↦ do
      name ← ask λ p. text_of p.previous
      declares ← ask declares_next
      elim declares [ true ↦ type_expr name | false ↦ type_inst (build_named_type name) ]
  ]
