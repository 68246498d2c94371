-- ===== src/Lexer/Token.antt =====
-- include/snuk/lexer.h: token types and tokens. The union of a token is `Literal`; a `double` is of a
-- type `F` that the model takes as a parameter. Lines and columns stay below 2 ^ 64, since a source
-- text does.
use snuk.Prelude.{ℕ, Option, Bool, true, false}
use snuk.Text.{StringView}

pub data TokenType : Type 0 where
  eof error : TokenType
  identifier integer float string : TokenType
  kw_true kw_false kw_null kw_nan kw_inf : TokenType
  kw_var kw_const kw_any kw_if kw_else kw_match kw_case kw_while kw_do kw_for kw_in : TokenType
  kw_return kw_break kw_continue kw_fn kw_type kw_interface kw_extend kw_self kw_print : TokenType
  lparen rparen lbrace rbrace lbracket rbracket : TokenType
  comma semicolon vsemicolon colon dot arrow : TokenType
  plus minus star slash percent : TokenType
  amp pipe caret tilde lshift rshift : TokenType
  amp_amp pipe_pipe bang kw_and kw_or kw_not : TokenType
  assign plus_assign minus_assign star_assign slash_assign percent_assign : TokenType
  amp_assign pipe_assign caret_assign lshift_assign rshift_assign : TokenType
  equal bang_equal less greater less_equal greater_equal : TokenType
  line_comment block_comment : TokenType
  token_max : TokenType

pub data Literal (F : Type 0) : Type 0 where
  text : StringView → Literal F
  int : ℕ → Literal F
  double : F → Literal F

-- The messages of error tokens.
pub data Message : Type 0 where
  invalid_hex_literal invalid_binary_literal invalid_exponent : Message
  float_literal_out_of_range integer_literal_out_of_range : Message
  unterminated_string unterminated_comment unexpected_character : Message

-- `leading_comment` and `trailing_comment` are zero views where there is no comment.
pub record Token (F : Type 0) : Type 0 where
  pub type : TokenType
  pub literal : Literal F
  pub err_msg : Option Message
  pub leading_comment : StringView
  pub trailing_comment : StringView
  pub line : ℕ
  pub col : ℕ

-- The cases of the switch in `lexer_should_insert_vsemicolon`.
unfoldable pub ends_item : TokenType → Bool
ends_item identifier = true
ends_item integer = true
ends_item float = true
ends_item string = true
ends_item kw_true = true
ends_item kw_false = true
ends_item kw_null = true
ends_item kw_nan = true
ends_item kw_inf = true
ends_item kw_any = true
ends_item kw_type = true
ends_item kw_return = true
ends_item kw_break = true
ends_item kw_continue = true
ends_item rparen = true
ends_item rbrace = true
ends_item rbracket = true
ends_item line_comment = true
ends_item block_comment = true
ends_item _ = false
