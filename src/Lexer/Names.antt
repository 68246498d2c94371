-- ===== src/Lexer/Names.antt =====
-- src/lexer.c: the names that the log prints for token types.
use snuk.Prelude.{
  ℕ, ◌≡◌, refl, ap, ◌∙◌, sym, List, [], ◌∷◌, Option, none, some, codes, if◌then◌else◌,
}
use snuk.Text.{string_equal}
use snuk.Lexer.Token
use snuk.Lexer.Token.{TokenType}

unfoldable pub token_type_to_string : TokenType → List ℕ
token_type_to_string Token.eof = codes "SNUK_TOKEN_EOF"
token_type_to_string Token.error = codes "SNUK_TOKEN_ERROR"
token_type_to_string Token.identifier = codes "SNUK_TOKEN_IDENTIFIER"
token_type_to_string Token.integer = codes "SNUK_TOKEN_INTEGER"
token_type_to_string Token.float = codes "SNUK_TOKEN_FLOAT"
token_type_to_string Token.string = codes "SNUK_TOKEN_STRING"
token_type_to_string Token.kw_true = codes "SNUK_TOKEN_TRUE"
token_type_to_string Token.kw_false = codes "SNUK_TOKEN_FALSE"
token_type_to_string Token.kw_null = codes "SNUK_TOKEN_NULL"
token_type_to_string Token.kw_nan = codes "SNUK_TOKEN_NAN"
token_type_to_string Token.kw_inf = codes "SNUK_TOKEN_INF"
token_type_to_string Token.kw_var = codes "SNUK_TOKEN_VAR"
token_type_to_string Token.kw_const = codes "SNUK_TOKEN_CONST"
token_type_to_string Token.kw_any = codes "Unkown token type"
token_type_to_string Token.kw_if = codes "SNUK_TOKEN_IF"
token_type_to_string Token.kw_else = codes "SNUK_TOKEN_ELSE"
token_type_to_string Token.kw_match = codes "SNUK_TOKEN_MATCH"
token_type_to_string Token.kw_case = codes "SNUK_TOKEN_CASE"
token_type_to_string Token.kw_while = codes "SNUK_TOKEN_WHILE"
token_type_to_string Token.kw_do = codes "SNUK_TOKEN_DO"
token_type_to_string Token.kw_for = codes "SNUK_TOKEN_FOR"
token_type_to_string Token.kw_in = codes "SNUK_TOKEN_IN"
token_type_to_string Token.kw_return = codes "SNUK_TOKEN_RETURN"
token_type_to_string Token.kw_break = codes "SNUK_TOKEN_BREAK"
token_type_to_string Token.kw_continue = codes "SNUK_TOKEN_CONTINUE"
token_type_to_string Token.kw_fn = codes "SNUK_TOKEN_FN"
token_type_to_string Token.kw_type = codes "SNUK_TOKEN_TYPE"
token_type_to_string Token.kw_interface = codes "SNUK_TOKEN_INTERFACE"
token_type_to_string Token.kw_extend = codes "SNUK_TOKEN_EXTEND"
token_type_to_string Token.kw_self = codes "SNUK_TOKEN_SELF"
token_type_to_string Token.kw_print = codes "SNUK_TOKEN_PRINT"
token_type_to_string Token.lparen = codes "SNUK_TOKEN_LPAREN"
token_type_to_string Token.rparen = codes "SNUK_TOKEN_RPAREN"
token_type_to_string Token.lbrace = codes "SNUK_TOKEN_LBRACE"
token_type_to_string Token.rbrace = codes "SNUK_TOKEN_RBRACE"
token_type_to_string Token.lbracket = codes "SNUK_TOKEN_LBRACKET"
token_type_to_string Token.rbracket = codes "SNUK_TOKEN_RBRACKET"
token_type_to_string Token.comma = codes "SNUK_TOKEN_COMMA"
token_type_to_string Token.semicolon = codes "SNUK_TOKEN_SEMICOLON"
token_type_to_string Token.vsemicolon = codes "SNUK_TOKEN_VSEMICOLON"
token_type_to_string Token.colon = codes "SNUK_TOKEN_COLON"
token_type_to_string Token.dot = codes "SNUK_TOKEN_DOT"
token_type_to_string Token.arrow = codes "SNUK_TOKEN_ARROW"
token_type_to_string Token.plus = codes "SNUK_TOKEN_PLUS"
token_type_to_string Token.minus = codes "SNUK_TOKEN_MINUS"
token_type_to_string Token.star = codes "SNUK_TOKEN_STAR"
token_type_to_string Token.slash = codes "SNUK_TOKEN_SLASH"
token_type_to_string Token.percent = codes "SNUK_TOKEN_PERCENT"
token_type_to_string Token.amp = codes "SNUK_TOKEN_AMP"
token_type_to_string Token.pipe = codes "SNUK_TOKEN_PIPE"
token_type_to_string Token.caret = codes "SNUK_TOKEN_CARET"
token_type_to_string Token.tilde = codes "SNUK_TOKEN_TILDE"
token_type_to_string Token.lshift = codes "SNUK_TOKEN_LSHIFT"
token_type_to_string Token.rshift = codes "SNUK_TOKEN_RSHIFT"
token_type_to_string Token.amp_amp = codes "SNUK_TOKEN_AMP_AMP"
token_type_to_string Token.pipe_pipe = codes "SNUK_TOKEN_PIPE_PIPE"
token_type_to_string Token.bang = codes "SNUK_TOKEN_BANG"
token_type_to_string Token.kw_and = codes "SNUK_TOKEN_KW_AND"
token_type_to_string Token.kw_or = codes "SNUK_TOKEN_KW_OR"
token_type_to_string Token.kw_not = codes "SNUK_TOKEN_KW_NOT"
token_type_to_string Token.assign = codes "SNUK_TOKEN_ASSIGN"
token_type_to_string Token.plus_assign = codes "SNUK_TOKEN_PLUS_ASSIGN"
token_type_to_string Token.minus_assign = codes "SNUK_TOKEN_MINUS_ASSIGN"
token_type_to_string Token.star_assign = codes "SNUK_TOKEN_STAR_ASSIGN"
token_type_to_string Token.slash_assign = codes "SNUK_TOKEN_SLASH_ASSIGN"
token_type_to_string Token.percent_assign = codes "SNUK_TOKEN_PERCENT_ASSIGN"
token_type_to_string Token.amp_assign = codes "SNUK_TOKEN_AMP_ASSIGN"
token_type_to_string Token.pipe_assign = codes "SNUK_TOKEN_PIPE_ASSIGN"
token_type_to_string Token.caret_assign = codes "SNUK_TOKEN_CARET_ASSIGN"
token_type_to_string Token.lshift_assign = codes "SNUK_TOKEN_LSHIFT_ASSIGN"
token_type_to_string Token.rshift_assign = codes "SNUK_TOKEN_RSHIFT_ASSIGN"
token_type_to_string Token.equal = codes "SNUK_TOKEN_EQUAL"
token_type_to_string Token.bang_equal = codes "SNUK_TOKEN_BANG_EQUAL"
token_type_to_string Token.less = codes "SNUK_TOKEN_LESS"
token_type_to_string Token.greater = codes "SNUK_TOKEN_GREATER"
token_type_to_string Token.less_equal = codes "SNUK_TOKEN_LESS_EQUAL"
token_type_to_string Token.greater_equal = codes "SNUK_TOKEN_GREATER_EQUAL"
token_type_to_string Token.line_comment = codes "SNUK_TOKEN_LINE_COMMENT"
token_type_to_string Token.block_comment = codes "SNUK_TOKEN_BLOCK_COMMENT"
token_type_to_string Token.token_max = codes "SNUK_TOKEN_MAX"

-- Every token type once.
abbrev token_types : List TokenType
token_types =
    Token.eof ∷ Token.error ∷ Token.identifier ∷ Token.integer ∷ Token.float ∷ Token.string
    ∷ Token.kw_true ∷ Token.kw_false ∷ Token.kw_null ∷ Token.kw_nan ∷ Token.kw_inf ∷ Token.kw_var
    ∷ Token.kw_const ∷ Token.kw_any ∷ Token.kw_if ∷ Token.kw_else ∷ Token.kw_match ∷ Token.kw_case
    ∷ Token.kw_while ∷ Token.kw_do ∷ Token.kw_for ∷ Token.kw_in ∷ Token.kw_return ∷ Token.kw_break
    ∷ Token.kw_continue ∷ Token.kw_fn ∷ Token.kw_type ∷ Token.kw_interface ∷ Token.kw_extend
    ∷ Token.kw_self ∷ Token.kw_print ∷ Token.lparen ∷ Token.rparen ∷ Token.lbrace ∷ Token.rbrace
    ∷ Token.lbracket ∷ Token.rbracket ∷ Token.comma ∷ Token.semicolon ∷ Token.vsemicolon
    ∷ Token.colon ∷ Token.dot ∷ Token.arrow ∷ Token.plus ∷ Token.minus ∷ Token.star ∷ Token.slash
    ∷ Token.percent ∷ Token.amp ∷ Token.pipe ∷ Token.caret ∷ Token.tilde ∷ Token.lshift
    ∷ Token.rshift ∷ Token.amp_amp ∷ Token.pipe_pipe ∷ Token.bang ∷ Token.kw_and ∷ Token.kw_or
    ∷ Token.kw_not ∷ Token.assign ∷ Token.plus_assign ∷ Token.minus_assign ∷ Token.star_assign
    ∷ Token.slash_assign ∷ Token.percent_assign ∷ Token.amp_assign ∷ Token.pipe_assign
    ∷ Token.caret_assign ∷ Token.lshift_assign ∷ Token.rshift_assign ∷ Token.equal
    ∷ Token.bang_equal ∷ Token.less ∷ Token.greater ∷ Token.less_equal ∷ Token.greater_equal
    ∷ Token.line_comment ∷ Token.block_comment ∷ Token.token_max ∷ []

abbrev find_named : List TokenType → List ℕ → Option TokenType
unfolding token_type_to_string string_equal
find_named [] s = none
find_named (t ∷ ts) s = if string_equal (token_type_to_string t) s then some t else find_named ts s

find_named-to_string : (t : TokenType) → find_named token_types (token_type_to_string t) ≡ some t
unfolding token_type_to_string string_equal find_named
find_named-to_string Token.eof = refl
find_named-to_string Token.error = refl
find_named-to_string Token.identifier = refl
find_named-to_string Token.integer = refl
find_named-to_string Token.float = refl
find_named-to_string Token.string = refl
find_named-to_string Token.kw_true = refl
find_named-to_string Token.kw_false = refl
find_named-to_string Token.kw_null = refl
find_named-to_string Token.kw_nan = refl
find_named-to_string Token.kw_inf = refl
find_named-to_string Token.kw_var = refl
find_named-to_string Token.kw_const = refl
find_named-to_string Token.kw_any = refl
find_named-to_string Token.kw_if = refl
find_named-to_string Token.kw_else = refl
find_named-to_string Token.kw_match = refl
find_named-to_string Token.kw_case = refl
find_named-to_string Token.kw_while = refl
find_named-to_string Token.kw_do = refl
find_named-to_string Token.kw_for = refl
find_named-to_string Token.kw_in = refl
find_named-to_string Token.kw_return = refl
find_named-to_string Token.kw_break = refl
find_named-to_string Token.kw_continue = refl
find_named-to_string Token.kw_fn = refl
find_named-to_string Token.kw_type = refl
find_named-to_string Token.kw_interface = refl
find_named-to_string Token.kw_extend = refl
find_named-to_string Token.kw_self = refl
find_named-to_string Token.kw_print = refl
find_named-to_string Token.lparen = refl
find_named-to_string Token.rparen = refl
find_named-to_string Token.lbrace = refl
find_named-to_string Token.rbrace = refl
find_named-to_string Token.lbracket = refl
find_named-to_string Token.rbracket = refl
find_named-to_string Token.comma = refl
find_named-to_string Token.semicolon = refl
find_named-to_string Token.vsemicolon = refl
find_named-to_string Token.colon = refl
find_named-to_string Token.dot = refl
find_named-to_string Token.arrow = refl
find_named-to_string Token.plus = refl
find_named-to_string Token.minus = refl
find_named-to_string Token.star = refl
find_named-to_string Token.slash = refl
find_named-to_string Token.percent = refl
find_named-to_string Token.amp = refl
find_named-to_string Token.pipe = refl
find_named-to_string Token.caret = refl
find_named-to_string Token.tilde = refl
find_named-to_string Token.lshift = refl
find_named-to_string Token.rshift = refl
find_named-to_string Token.amp_amp = refl
find_named-to_string Token.pipe_pipe = refl
find_named-to_string Token.bang = refl
find_named-to_string Token.kw_and = refl
find_named-to_string Token.kw_or = refl
find_named-to_string Token.kw_not = refl
find_named-to_string Token.assign = refl
find_named-to_string Token.plus_assign = refl
find_named-to_string Token.minus_assign = refl
find_named-to_string Token.star_assign = refl
find_named-to_string Token.slash_assign = refl
find_named-to_string Token.percent_assign = refl
find_named-to_string Token.amp_assign = refl
find_named-to_string Token.pipe_assign = refl
find_named-to_string Token.caret_assign = refl
find_named-to_string Token.lshift_assign = refl
find_named-to_string Token.rshift_assign = refl
find_named-to_string Token.equal = refl
find_named-to_string Token.bang_equal = refl
find_named-to_string Token.less = refl
find_named-to_string Token.greater = refl
find_named-to_string Token.less_equal = refl
find_named-to_string Token.greater_equal = refl
find_named-to_string Token.line_comment = refl
find_named-to_string Token.block_comment = refl
find_named-to_string Token.token_max = refl

the_type : TokenType → Option TokenType → TokenType
the_type d none = d
the_type d (some t) = t

-- Distinct token types have distinct names.
pub token_type_to_string-injective :
    (t u : TokenType) → token_type_to_string t ≡ token_type_to_string u → t ≡ u
unfolding the_type
token_type_to_string-injective t u h =
    ap (the_type t)
      (sym (find_named-to_string t) ∙ ap (find_named token_types) h ∙ find_named-to_string u)
