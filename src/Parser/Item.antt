-- ===== src/Parser/Item.antt =====
-- src/parser/snuk_item.c: the items of a program.
use snuk.Prelude.{ℕ, zero, suc, Bool, true, false, ◌||◌, ◌&&◌, not}
use snuk.Lexer.Token
use snuk.Lexer.Token.{TokenType}
use snuk.Parser.Syntax
use snuk.Parser.Syntax.{SnukExpr, SnukItem, SnukVar, Exprs, Items}
use snuk.Parser.Enum.{same_type}
use snuk.Parser.State.{
  Parser, P, out_of_rounds, ◌>>=◌, ◌>>◌, pure, ask, parser_match, parser_expect, check_item_end,
  parser_expect_item_end, collect, when_closed, text_of,
}
use snuk.Parser.Build.{
  build_identifier_expr, build_extend_item, build_print_item, build_flow_item, build_interface_item,
}
use snuk.Parser.Calls.{Calls, snuk_expr_parse}
use snuk.Parser.Var.{snuk_var_parse, snuk_type_parse_interface}
use snuk.Parser.Block.{type_member}

-- `parser_match(a) || m`
abbrev pub match_or : {F : Type 0} → TokenType → P F Bool → P F Bool
match_or t m = parser_match t >>= λ found. elim found [ true ↦ pure true | false ↦ m ]

module _ {F : Type 0} (calls : Calls F) where
  unfoldable pub parse_expr_item : P F (SnukItem F)
  unfolding parser_expect_item_end
  parse_expr_item = do e ← snuk_expr_parse calls; parser_expect_item_end; pure (Syntax.item_expr e)

  abbrev pub decl_item : SnukVar F → Bool → SnukItem F
  decl_item v true = Syntax.item_const_decl v
  decl_item v false = Syntax.item_var_decl v

  unfoldable pub parse_decl_item : Bool → P F (SnukItem F)
  unfolding snuk_var_parse parser_expect_item_end
  parse_decl_item is_const = do
    v ← snuk_var_parse calls true
    parser_expect_item_end
    pure (decl_item v is_const)

  -- A value follows `return` and `break`, unless the item ends.
  abbrev pub has_value : Parser F → Bool
  has_value p =
      (same_type p.previous.type Token.kw_return || same_type p.previous.type Token.kw_break)
      && not (check_item_end p)

  abbrev pub flow_value : Bool → P F (SnukExpr F)
  flow_value true = snuk_expr_parse calls
  flow_value false = pure Syntax.no_expr

  unfoldable pub parse_flow_item : P F (SnukItem F)
  unfolding same_type check_item_end parser_expect_item_end build_flow_item
  parse_flow_item = do
    type ← ask λ p. p.previous.type
    more ← ask has_value
    value ← flow_value more
    parser_expect_item_end
    build_flow_item type value

  unfoldable pub print_more : ℕ → Exprs F → P F (Exprs F)
  unfolding parser_match build_print_item
  print_more zero es = λ p. out_of_rounds
  print_more (suc rounds) es = parser_match Token.comma >>= λ more. elim more [
    | false ↦ pure es
    | true ↦ snuk_expr_parse calls >>= λ e. print_more rounds (build_print_item es e)
  ]

  unfoldable pub parse_print_item : P F (SnukItem F)
  unfolding print_more build_print_item parser_expect_item_end
  parse_print_item = do
    e ← snuk_expr_parse calls
    es ← print_more calls.rounds (build_print_item Syntax.no_exprs e)
    parser_expect_item_end
    pure (Syntax.item_print es)

  unfoldable pub parse_extend_item : P F (SnukItem F)
  unfolding parser_expect build_identifier_expr build_extend_item type_member collect when_closed
      parser_expect_item_end
  parse_extend_item = do
    parser_expect Token.identifier "expected type name to extend"
    t ← ask λ p. build_identifier_expr p.previous
    parser_expect Token.lbrace "expected '{'"
    is ← collect calls.rounds Token.rbrace (type_member calls build_extend_item) Syntax.no_items
    when_closed Token.rbrace "expected '}'" Syntax.no_item
        do parser_expect_item_end; pure (Syntax.item_extend t is)

  unfoldable pub parse_interface_item : P F (SnukItem F)
  unfolding parser_expect snuk_type_parse_interface parser_expect_item_end build_interface_item
  parse_interface_item = do
    parser_expect Token.identifier "expected interface name"
    name ← ask λ p. text_of p.previous
    t ← snuk_type_parse_interface calls
    parser_expect_item_end
    pure (build_interface_item name t)

  unfoldable pub item_body : P F (SnukItem F)
  unfolding same_type parser_match parse_expr_item parse_decl_item parse_flow_item parse_print_item
      parse_extend_item parse_interface_item
  item_body = match_or Token.kw_var (parser_match Token.kw_const) >>= λ declares. elim declares [
    | true ↦ ask (λ p. same_type p.previous.type Token.kw_const) >>= parse_decl_item
    | false ↦
        match_or Token.kw_return (match_or Token.kw_continue (parser_match Token.kw_break))
        >>= λ flows. elim flows [
          | true ↦ parse_flow_item
          | false ↦ parser_match Token.kw_print >>= λ prints. elim prints [
            | true ↦ parse_print_item
            | false ↦ parser_match Token.kw_extend >>= λ extends. elim extends [
              | true ↦ parse_extend_item
              | false ↦ parser_match Token.kw_interface >>= λ interface_. elim interface_ [
                | true ↦ parse_interface_item
                | false ↦ parse_expr_item
              ]
            ]
          ]
        ]
  ]
