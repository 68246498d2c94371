-- ===== src/Parser/Whole.antt =====
-- src/parser/snuk_expr.c and src/parser/parser.c: the functions of the parser tied together, and the
-- functions that its users call.
use snuk.Prelude.{ℕ, zero, suc, Bool, true, false, ◌||◌}
use snuk.Lexer.Token
use snuk.Lexer.Token.{TokenType}
use snuk.Parser.Syntax
use snuk.Parser.Syntax.{SnukExpr, SnukItem}
use snuk.Parser.Enum.{same_type}
use snuk.Parser.Rules
use snuk.Parser.Rules.{PrefixFn, prefix_rule}
use snuk.Parser.State.{
  Parser, P, out_of_rounds, ◌>>=◌, ◌>>◌, pure, ask, change, parser_error, parser_advance,
  parser_match_item_end,
}
use snuk.Parser.Calls.{Calls}
use snuk.Parser.Var.{parse_type_body}
use snuk.Parser.Expr.{primary, comment, grouping, unary, list, infix_loop}
use snuk.Parser.Block.{block, if_else, while_loop, for_loop, fn_expr, type_token}
use snuk.Parser.Item.{item_body}

module _ {F : Type 0} (calls : Calls F) where
  -- `parse_match` takes no token.
  unfoldable pub prefix_fn : PrefixFn → P F (SnukExpr F)
  unfolding primary grouping list unary if_else while_loop for_loop fn_expr type_token block comment
  prefix_fn Rules.no_prefix = parser_error "expected expression" >> pure Syntax.no_expr
  prefix_fn Rules.parse_primary = primary
  prefix_fn Rules.parse_grouping = grouping calls
  prefix_fn Rules.parse_list = list calls
  prefix_fn Rules.parse_unary = unary calls
  prefix_fn Rules.parse_if = if_else calls
  prefix_fn Rules.parse_match = pure (Syntax.expr_match Syntax.no_expr)
  prefix_fn Rules.parse_while = while_loop calls
  prefix_fn Rules.parse_for = for_loop calls
  prefix_fn Rules.parse_fn = fn_expr calls
  prefix_fn Rules.parse_type_token = type_token calls
  prefix_fn Rules.parse_block = block calls
  prefix_fn Rules.parse_comment = comment
  prefix_fn Rules.parse_self = pure Syntax.expr_self

  -- Without a prefix function `parse_precedence` returns before the loop.
  unfoldable pub precedence_from : ℕ → PrefixFn → P F (SnukExpr F)
  unfolding prefix_fn infix_loop
  precedence_from precedence Rules.no_prefix = prefix_fn Rules.no_prefix
  precedence_from precedence pfn = prefix_fn pfn >>= infix_loop calls calls.rounds precedence

  unfoldable pub precedence_body : ℕ → P F (SnukExpr F)
  unfolding parser_advance prefix_rule precedence_from
  precedence_body precedence =
      parser_advance >> (ask (λ p. prefix_rule p.previous.type) >>= precedence_from precedence)

module _ {F : Type 0} where
  -- The functions, with calls of each other that nest `n` deep at most and loops of `n` rounds.
  unfoldable pub calls_of : ℕ → Calls F
  unfolding precedence_body if_else item_body parse_type_body
  calls_of zero = record {
    rounds = 0;
    parse_precedence = λ precedence p. out_of_rounds;
    parse_if = λ p. out_of_rounds;
    snuk_item_parse = λ p. out_of_rounds;
    snuk_type_parse = λ p. out_of_rounds;
  }
  calls_of (suc n) = record {
    rounds = n;
    parse_precedence = precedence_body (calls_of n);
    parse_if = if_else (calls_of n);
    snuk_item_parse = item_body (calls_of n);
    snuk_type_parse = parse_type_body (calls_of n);
  }

  unfoldable pub skip_to_item_end : ℕ → P F (Unit {0})
  unfolding parser_match_item_end parser_advance
  skip_to_item_end zero = λ p. out_of_rounds
  skip_to_item_end (suc rounds) = parser_match_item_end >>= λ ended. elim ended [
    | true ↦ pure tt
    | false ↦ parser_advance >> skip_to_item_end rounds
  ]

  abbrev item_ended : Parser F → Bool
  item_ended p =
      same_type p.previous.type Token.vsemicolon || same_type p.previous.type Token.semicolon

  abbrev error_item : P F (SnukItem F)
  error_item = ask (λ p. Syntax.item_error p.err_msg p.err_token)

  unfoldable pub parser_sync : ℕ → P F (SnukItem F)
  unfolding same_type skip_to_item_end
  parser_sync rounds =
      change (λ p. record p { panic_mode = false })
      >> (ask item_ended >>= λ ended. elim ended [
        | true ↦ error_item
        | false ↦ skip_to_item_end rounds >> error_item
      ])

  unfoldable pub snuk_parser_next_item : ℕ → P F (SnukItem F)
  unfolding same_type calls_of parser_sync
  snuk_parser_next_item rounds = ask (λ p. same_type p.current.type Token.eof) >>= λ at_end.
      elim at_end [
        | true ↦ pure Syntax.no_item
        | false ↦ (calls_of rounds).snuk_item_parse >>= λ item. ask (λ p. p.panic_mode) >>= λ panic.
            elim panic [ true ↦ parser_sync rounds | false ↦ pure item ]
      ]
