-- ===== src/Parser/Unfold.antt =====
-- One name for all functions of the parser, to run it in a proof.
use snuk.Prelude.{ℕ, List, Outcome}
use snuk.Lexer.Numbers.{Libc}
use snuk.Lexer.Unfold.{next_token}
use snuk.Parser.Enum.{enum_value, same_type}
use snuk.Parser.Rules.{prefix_rule, infix_rule, precedence_of}
use snuk.Parser.State.{
  raise_error, take_next, parser_advance, parser_match, parser_expect, check_item_end,
  parser_match_item_end, parser_expect_item_end, parser_copy_string_view, collect, when_closed,
  Parser,
}
use snuk.Parser.Build.{
  push_param, push_member, build_fn_type, build_named_type, build_interface_type, build_var,
  build_comment_expr, build_bool_expr, build_string_literal_expr, build_identifier_expr,
  build_int_literal_expr, build_float_literal_expr, build_while_expr, build_fn_expr,
  build_type_expr, build_type_inst_expr, build_block_expr, build_extend_item, build_print_item,
  build_flow_item, build_interface_item,
}
use snuk.Parser.Var.{
  snuk_var_parse, interface_members, snuk_type_parse_interface, comma_unless, param_type,
  parse_fn_type, parse_named_type, parse_type_body,
}
use snuk.Parser.Expr.{
  primary_of, primary, comment, grouping, unary, element, list, call, binary, assignment,
  compound_assignment, member, infix_fn, infix_loop,
}
use snuk.Parser.Block.{
  block_item, block, else_part, if_else, while_loop, for_rest, for_expr, for_loop, fn_param,
  fn_expr, type_member, type_expr, member_value, instance_name, type_inst, type_token,
}
use snuk.Parser.Item.{
  parse_expr_item, parse_decl_item, parse_flow_item, print_more, parse_print_item,
  parse_extend_item, parse_interface_item, item_body,
}
use snuk.Parser.Whole.{
  prefix_fn, precedence_from, precedence_body, calls_of, skip_to_item_end, parser_sync,
  snuk_parser_next_item,
}
use snuk.Parser.Start.{tokens_from, start_at, snuk_parser_init}
use snuk.Parser.Syntax.{push_expr, push_item, push_var}

unfoldable pub parse_text : {F : Type 0} → Libc F → List ℕ → Outcome (Parser F)
unfolding next_token enum_value same_type prefix_rule infix_rule precedence_of raise_error take_next
    parser_advance parser_match parser_expect check_item_end parser_match_item_end
    parser_expect_item_end parser_copy_string_view collect when_closed push_param push_member
    build_fn_type build_named_type build_interface_type build_var build_comment_expr build_bool_expr
    build_string_literal_expr build_identifier_expr build_int_literal_expr build_float_literal_expr
    build_while_expr build_fn_expr build_type_expr build_type_inst_expr build_block_expr
    build_extend_item build_print_item build_flow_item build_interface_item snuk_var_parse
    interface_members snuk_type_parse_interface comma_unless param_type parse_fn_type
    parse_named_type parse_type_body primary_of primary comment grouping unary element list call
    binary assignment compound_assignment member infix_fn infix_loop block_item block else_part
    if_else while_loop for_rest for_expr for_loop fn_param fn_expr type_member type_expr
    member_value instance_name type_inst type_token parse_expr_item parse_decl_item parse_flow_item
    print_more parse_print_item parse_extend_item parse_interface_item item_body prefix_fn
    precedence_from precedence_body calls_of skip_to_item_end parser_sync snuk_parser_next_item
    tokens_from start_at snuk_parser_init push_expr push_item push_var
parse_text libc src = snuk_parser_init libc src
