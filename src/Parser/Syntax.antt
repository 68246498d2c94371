-- ===== src/Parser/Syntax.antt =====
-- include/snuk/parser/snuk_expr.h, snuk_item.h and snuk_var.h: the syntax tree. A null pointer is
-- `no_expr` or `no_item`. The darrays of the nodes are the lists `Exprs`, `Items` and `Vars`.
use Prim.Native.String.{String}
use snuk.Prelude.{ℕ, Bool}
use snuk.Text.{StringView}
use snuk.Lexer.Token.{TokenType, Token}
use snuk.Types.{SnukType}

mutual
  pub data SnukExpr (F : Type 0) : Type 0 where
    no_expr : SnukExpr F
    expr_identifier : StringView → SnukExpr F
    expr_int : ℕ → SnukExpr F
    expr_float : F → SnukExpr F
    expr_string : StringView → SnukExpr F
    expr_bool : Bool → SnukExpr F
    expr_null : SnukExpr F
    expr_unary : TokenType → SnukExpr F → SnukExpr F
    expr_binary : TokenType → SnukExpr F → SnukExpr F → SnukExpr F
    expr_assign : SnukExpr F → SnukExpr F → SnukExpr F
    expr_compound_assign : TokenType → SnukExpr F → SnukExpr F → SnukExpr F
    expr_if : SnukExpr F → SnukExpr F → SnukExpr F → SnukExpr F
    expr_match : SnukExpr F → SnukExpr F
    expr_while : SnukExpr F → SnukExpr F → SnukExpr F
    expr_do_while : SnukExpr F → SnukExpr F → SnukExpr F
    expr_for : SnukItem F → SnukExpr F → SnukExpr F → SnukExpr F → SnukExpr F
    expr_fn : Vars F → SnukExpr F → StringView → SnukType → SnukExpr F
    expr_type : Items F → StringView → SnukType → SnukExpr F
    expr_type_inst : SnukType → StringView → Exprs F → SnukExpr F
    expr_block : Items F → SnukExpr F
    expr_call : SnukExpr F → Exprs F → SnukExpr F
    expr_member : SnukExpr F → SnukExpr F → SnukExpr F
    expr_self : SnukExpr F
    expr_index : SnukExpr F
    expr_list : Exprs F → SnukExpr F
    expr_line_comment : StringView → SnukExpr F
    expr_block_comment : StringView → SnukExpr F

  -- The expression of `item_return` and `item_break` may be the null pointer.
  pub data SnukItem (F : Type 0) : Type 0 where
    no_item : SnukItem F
    item_expr : SnukExpr F → SnukItem F
    item_var_decl : SnukVar F → SnukItem F
    item_const_decl : SnukVar F → SnukItem F
    item_print : Exprs F → SnukItem F
    item_return : SnukExpr F → SnukItem F
    item_break : SnukExpr F → SnukItem F
    item_continue : SnukItem F
    item_extend : SnukExpr F → Items F → SnukItem F
    item_interface : StringView → SnukType → SnukItem F
    item_error : String → Token F → SnukItem F

  -- A name, a type and a value.
  pub data SnukVar (F : Type 0) : Type 0 where
    snuk_var : StringView → SnukType → SnukExpr F → SnukVar F

  pub data Exprs (F : Type 0) : Type 0 where
    no_exprs : Exprs F
    exprs : SnukExpr F → Exprs F → Exprs F

  pub data Items (F : Type 0) : Type 0 where
    no_items : Items F
    items : SnukItem F → Items F → Items F

  pub data Vars (F : Type 0) : Type 0 where
    no_vars : Vars F
    vars : SnukVar F → Vars F → Vars F

-- `snuk_darray_push` on the lists of the tree.
module _ {F : Type 0} where
  unfoldable pub push_expr : Exprs F → SnukExpr F → Exprs F
  push_expr no_exprs e = exprs e no_exprs
  push_expr (exprs x es) e = exprs x (push_expr es e)

  unfoldable pub push_item : Items F → SnukItem F → Items F
  push_item no_items i = items i no_items
  push_item (items x is) i = items x (push_item is i)

  unfoldable pub push_var : Vars F → SnukVar F → Vars F
  push_var no_vars v = vars v no_vars
  push_var (vars x vs) v = vars x (push_var vs v)
