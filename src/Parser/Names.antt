-- ===== src/Parser/Names.antt =====
-- src/parser/snuk_expr.c and src/parser/snuk_item.c: the names that the log prints for the types of
-- expressions and items.
use snuk.Prelude.{ℕ, List, codes}

pub data SnukExprType : Type 0 where
  kind_identifier kind_int kind_float kind_string kind_bool : SnukExprType
  kind_null kind_unary kind_binary kind_assign kind_compound_assign : SnukExprType
  kind_if kind_match kind_while kind_do_while kind_for : SnukExprType
  kind_fn kind_type kind_type_inst kind_block kind_call : SnukExprType
  kind_member kind_self kind_index kind_list kind_line_comment : SnukExprType
  kind_block_comment kind_max : SnukExprType

unfoldable pub snuk_expr_type_to_string : SnukExprType → List ℕ
snuk_expr_type_to_string kind_identifier = codes "SNUK_EXPR_IDENTIFIER"
snuk_expr_type_to_string kind_int = codes "SNUK_EXPR_INT"
snuk_expr_type_to_string kind_float = codes "SNUK_EXPR_FLOAT"
snuk_expr_type_to_string kind_string = codes "SNUK_EXPR_STRING"
snuk_expr_type_to_string kind_bool = codes "SNUK_EXPR_BOOL"
snuk_expr_type_to_string kind_null = codes "SNUK_EXPR_NULL"
snuk_expr_type_to_string kind_unary = codes "SNUK_EXPR_UNARY"
snuk_expr_type_to_string kind_binary = codes "SNUK_EXPR_BINARY"
snuk_expr_type_to_string kind_assign = codes "SNUK_EXPR_ASSIGN"
snuk_expr_type_to_string kind_compound_assign = codes "SNUK_EXPR_COMPOUND_ASSIGN"
snuk_expr_type_to_string kind_if = codes "SNUK_EXPR_IF"
snuk_expr_type_to_string kind_match = codes "SNUK_EXPR_MATCH"
snuk_expr_type_to_string kind_while = codes "SNUK_EXPR_WHILE"
snuk_expr_type_to_string kind_do_while = codes "SNUK_EXPR_DO_WHILE"
snuk_expr_type_to_string kind_for = codes "SNUK_EXPR_FOR"
snuk_expr_type_to_string kind_fn = codes "SNUK_EXPR_FN"
snuk_expr_type_to_string kind_type = codes "SNUK_EXPR_TYPE"
snuk_expr_type_to_string kind_type_inst = codes "SNUK_EXPR_TYPE_INST"
snuk_expr_type_to_string kind_block = codes "SNUK_EXPR_BLOCK"
snuk_expr_type_to_string kind_call = codes "SNUK_EXPR_CALL"
snuk_expr_type_to_string kind_member = codes "SNUK_EXPR_MEMBER"
snuk_expr_type_to_string kind_self = codes "SNUK_EXPR_SELF"
snuk_expr_type_to_string kind_index = codes "SNUK_EXPR_INDEX"
snuk_expr_type_to_string kind_list = codes "SNUK_EXPR_LIST"
snuk_expr_type_to_string kind_line_comment = codes "SNUK_EXPR_LINE_COMMENT"
snuk_expr_type_to_string kind_block_comment = codes "SNUK_EXPR_BLOCK_COMMENT"
snuk_expr_type_to_string kind_max = codes "SNUK_EXPR_MAX"

pub data SnukItemType : Type 0 where
  item_kind_expr item_kind_var_decl item_kind_const_decl item_kind_print item_kind_return :
      SnukItemType
  item_kind_break item_kind_continue item_kind_extend item_kind_interface item_kind_error :
      SnukItemType
  item_kind_max : SnukItemType

-- The switch has no case for an interface and for an error.
unfoldable pub snuk_item_type_to_string : SnukItemType → List ℕ
snuk_item_type_to_string item_kind_expr = codes "SNUK_ITEM_EXPR"
snuk_item_type_to_string item_kind_var_decl = codes "SNUK_ITEM_VAR_DECL"
snuk_item_type_to_string item_kind_const_decl = codes "SNUK_ITEM_CONST_DECL"
snuk_item_type_to_string item_kind_print = codes "SNUK_ITEM_PRINT"
snuk_item_type_to_string item_kind_return = codes "SNUK_ITEM_RETURN"
snuk_item_type_to_string item_kind_break = codes "SNUK_ITEM_BREAK"
snuk_item_type_to_string item_kind_continue = codes "SNUK_ITEM_CONTINUE"
snuk_item_type_to_string item_kind_extend = codes "SNUK_ITEM_EXTEND"
snuk_item_type_to_string item_kind_max = codes "SNUK_ITEM_MAX"
snuk_item_type_to_string _ = codes "Unkown item type"
