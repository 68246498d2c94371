-- ===== src/Parser/Statements.antt =====
-- A grammar of the items without braces, over that of expressions: what src/parser/snuk_item.c and
-- src/parser/snuk_var.c parse, described without the parser.
use snuk.Prelude.{List, [], ◌∷◌, ◌++◌, ◌≡◌}
use snuk.Lexer.Token
use snuk.Lexer.Token.{TokenType, Token}
use snuk.Types
use snuk.Types.{SnukType}
use snuk.Parser.Syntax
use snuk.Parser.Syntax.{SnukExpr, SnukItem, SnukVar, Exprs}
use snuk.Parser.State.{text_of, parser_copy_string_view}
use snuk.Parser.Grammar.{Derives}

-- The tokens that end an item.
pub data EndsItem : TokenType → Type 0 where
  ends_semicolon : EndsItem Token.semicolon
  ends_vsemicolon : EndsItem Token.vsemicolon
  ends_eof : EndsItem Token.eof

pub data Jump : TokenType → Type 0 where
  jump_return : Jump Token.kw_return
  jump_break : Jump Token.kw_break

module _ {F : Type 0} where
  -- The type of a variable: none, that of any value, that of types, or a name.
  pub data Annotation : List (Token F) → SnukType → Type 0 where
    annotation_none : Annotation [] Types.type_any
    annotation_any :
        (c t : Token F)
        → c.type ≡ Token.colon
        → t.type ≡ Token.kw_any
        → Annotation (c ∷ t ∷ []) Types.type_any
    annotation_type :
        (c t : Token F)
        → c.type ≡ Token.colon
        → t.type ≡ Token.kw_type
        → Annotation (c ∷ t ∷ []) Types.type_type
    annotation_name :
        (c t : Token F)
        → c.type ≡ Token.colon
        → t.type ≡ Token.identifier
        → Annotation (c ∷ t ∷ []) (Types.type_named (parser_copy_string_view (text_of t)))

  -- The value of a variable: null where there is none.
  pub data Initial : List (Token F) → SnukExpr F → Type 0 where
    initial_none : Initial [] Syntax.expr_null
    initial_some :
        (o : Token F) (ts : List (Token F)) (e : SnukExpr F)
        → o.type ≡ Token.assign
        → Derives 1 ts e
        → Initial (o ∷ ts) e

  pub data Variable : List (Token F) → SnukVar F → Type 0 where
    variable :
        (t : Token F) (ts us : List (Token F)) (ty : SnukType) (e : SnukExpr F)
        → t.type ≡ Token.identifier
        → Annotation ts ty
        → Initial us e
        → Variable (t ∷ (ts ++ us)) (Syntax.snuk_var (parser_copy_string_view (text_of t)) ty e)

  -- Expressions with commas between them.
  pub data Printed : List (Token F) → Exprs F → Type 0 where
    printed_last :
        (ts : List (Token F)) (e : SnukExpr F)
        → Derives 1 ts e
        → Printed ts (Syntax.exprs e Syntax.no_exprs)
    printed_more :
        (t : Token F) (ts us : List (Token F)) (e : SnukExpr F) (es : Exprs F)
        → Derives 1 ts e
        → t.type ≡ Token.comma
        → Printed us es
        → Printed (ts ++ (t ∷ us)) (Syntax.exprs e es)

  abbrev pub jump_item : {t : TokenType} → Jump t → SnukExpr F → SnukItem F
  jump_item jump_return e = Syntax.item_return e
  jump_item jump_break e = Syntax.item_break e

  -- An item, without the token that ends it.
  pub data Statement : List (Token F) → SnukItem F → Type 0 where
    statement_expr :
        (ts : List (Token F)) (e : SnukExpr F) → Derives 1 ts e → Statement ts (Syntax.item_expr e)
    statement_var :
        (t : Token F) (ts : List (Token F)) (v : SnukVar F)
        → t.type ≡ Token.kw_var
        → Variable ts v
        → Statement (t ∷ ts) (Syntax.item_var_decl v)
    statement_const :
        (t : Token F) (ts : List (Token F)) (v : SnukVar F)
        → t.type ≡ Token.kw_const
        → Variable ts v
        → Statement (t ∷ ts) (Syntax.item_const_decl v)
    statement_jump :
        (t : Token F) (j : Jump t.type) → Statement (t ∷ []) (jump_item j Syntax.no_expr)
    statement_jump_value :
        (t : Token F) (ts : List (Token F)) (e : SnukExpr F) (j : Jump t.type)
        → Derives 1 ts e
        → Statement (t ∷ ts) (jump_item j e)
    statement_continue :
        (t : Token F) → t.type ≡ Token.kw_continue → Statement (t ∷ []) Syntax.item_continue
    statement_print :
        (t : Token F) (ts : List (Token F)) (es : Exprs F)
        → t.type ≡ Token.kw_print
        → Printed ts es
        → Statement (t ∷ ts) (Syntax.item_print es)
