-- ===== src/Parser/Build.antt =====
-- include/snuk/parser/snuk_expr.h, snuk_item.h, snuk_var.h and snuk_type.h: the nodes of the tree.
-- Allocation does not fail, and a node is what it is made of.
use snuk.Prelude.{Bool, true, false, if◌then◌else◌, should_not_reach, wild}
use snuk.Text.{StringView}
use snuk.Lexer.Token
use snuk.Lexer.Token.{TokenType, Token, Literal, text, int, double}
use snuk.Types
use snuk.Types.{SnukType, Params, Members}
use snuk.Parser.Enum.{same_type}
use snuk.Parser.Syntax
use snuk.Parser.Syntax.{SnukExpr, SnukItem, SnukVar, Exprs, Items, Vars, push_expr, push_item}
use snuk.Parser.State.{P, done, fault, text_of, parser_copy_string_view}

unfoldable pub push_param : Params → SnukType → Params
push_param Types.no_params t = Types.param t Types.no_params
push_param (Types.param u ps) t = Types.param u (push_param ps t)

unfoldable pub push_member : Members → StringView → SnukType → Members
push_member Types.no_members n t = Types.member n t Types.no_members
push_member (Types.member m u ms) n t = Types.member m u (push_member ms n t)

-- A parameter or a return type that is the null pointer is left out.
unfoldable pub build_fn_type : SnukType → SnukType → SnukType → SnukType
unfolding push_param
build_fn_type Types.no_type Types.no_type ret = Types.type_fn Types.no_params ret
build_fn_type Types.no_type p ret = Types.type_fn (Types.param p Types.no_params) ret
build_fn_type (Types.type_fn ps r) Types.no_type Types.no_type = Types.type_fn ps r
build_fn_type (Types.type_fn ps r) Types.no_type ret = Types.type_fn ps ret
build_fn_type (Types.type_fn ps r) p Types.no_type = Types.type_fn (push_param ps p) r
build_fn_type (Types.type_fn ps r) p ret = Types.type_fn (push_param ps p) ret
build_fn_type t _ _ = t

unfoldable pub build_named_type : StringView → SnukType
unfolding parser_copy_string_view
build_named_type name = Types.type_named (parser_copy_string_view name)

module _ {F : Type 0} where
  unfoldable pub build_interface_type : SnukType → SnukVar F → SnukType
  unfolding push_member
  build_interface_type Types.no_type (Syntax.snuk_var n t v) =
      Types.type_interface (Types.member n t Types.no_members)
  build_interface_type (Types.type_interface ms) (Syntax.snuk_var n t v) =
      Types.type_interface (push_member ms n t)
  build_interface_type t _ = t

  unfoldable pub build_var : StringView → SnukType → SnukExpr F → SnukVar F
  unfolding parser_copy_string_view
  build_var name t value = Syntax.snuk_var (parser_copy_string_view name) t value

  unfoldable pub build_comment_expr : Token F → SnukExpr F
  unfolding parser_copy_string_view same_type
  build_comment_expr t =
      if same_type t.type Token.block_comment
      then Syntax.expr_block_comment (parser_copy_string_view (text_of t))
      else Syntax.expr_line_comment (parser_copy_string_view (text_of t))

  -- The literals are made of the token that was taken last.
  unfoldable pub build_bool_expr : Token F → SnukExpr F
  unfolding same_type
  build_bool_expr t = Syntax.expr_bool (same_type t.type Token.kw_true)

  unfoldable pub build_string_literal_expr : Token F → SnukExpr F
  unfolding parser_copy_string_view
  build_string_literal_expr t = Syntax.expr_string (parser_copy_string_view (text_of t))

  unfoldable pub build_identifier_expr : Token F → SnukExpr F
  unfolding parser_copy_string_view
  build_identifier_expr t = Syntax.expr_identifier (parser_copy_string_view (text_of t))

  -- Reading another member of the union than the one that was written.
  unfoldable pub build_int_literal_expr : Literal F → P F (SnukExpr F)
  build_int_literal_expr (int n) p = done (Syntax.expr_int n) p
  build_int_literal_expr _ p = fault wild

  unfoldable pub build_float_literal_expr : Literal F → P F (SnukExpr F)
  build_float_literal_expr (double x) p = done (Syntax.expr_float x) p
  build_float_literal_expr _ p = fault wild

  unfoldable pub build_while_expr : SnukExpr F → SnukExpr F → Bool → SnukExpr F
  build_while_expr condition body true = Syntax.expr_do_while condition body
  build_while_expr condition body false = Syntax.expr_while condition body

  unfoldable pub build_fn_expr : Vars F → SnukExpr F → StringView → SnukType → SnukExpr F
  unfolding parser_copy_string_view
  build_fn_expr params body name t = Syntax.expr_fn params body (parser_copy_string_view name) t

  unfoldable pub build_type_expr : Items F → StringView → SnukType → SnukExpr F
  unfolding parser_copy_string_view
  build_type_expr members name t = Syntax.expr_type members (parser_copy_string_view name) t

  unfoldable pub build_type_inst_expr : SnukType → Exprs F → StringView → SnukExpr F
  unfolding parser_copy_string_view
  build_type_inst_expr t init name = Syntax.expr_type_inst t (parser_copy_string_view name) init

  -- A null pointer is not pushed.
  unfoldable pub build_block_expr : Items F → SnukItem F → Items F
  unfolding push_item
  build_block_expr is Syntax.no_item = is
  build_block_expr is i = push_item is i

  unfoldable pub build_extend_item : Items F → SnukItem F → Items F
  unfolding push_item
  build_extend_item is Syntax.no_item = is
  build_extend_item is i = push_item is i

  unfoldable pub build_print_item : Exprs F → SnukExpr F → Exprs F
  unfolding push_expr
  build_print_item es Syntax.no_expr = es
  build_print_item es e = push_expr es e

  unfoldable pub build_flow_item : TokenType → SnukExpr F → P F (SnukItem F)
  build_flow_item Token.kw_continue value p = done Syntax.item_continue p
  build_flow_item Token.kw_return value p = done (Syntax.item_return value) p
  build_flow_item Token.kw_break value p = done (Syntax.item_break value) p
  build_flow_item _ value p = fault should_not_reach

  unfoldable pub build_interface_item : StringView → SnukType → SnukItem F
  unfolding parser_copy_string_view
  build_interface_item name t = Syntax.item_interface (parser_copy_string_view name) t
