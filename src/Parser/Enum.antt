-- ===== src/Parser/Enum.antt =====
-- include/snuk/lexer.h: the value of a token type in its enumeration, by which types are compared.
use snuk.Prelude.{ℕ, Bool, ◌==◌}
use snuk.Lexer.Token
use snuk.Lexer.Token.{TokenType}

unfoldable pub enum_value : TokenType → ℕ
enum_value Token.eof = 0
enum_value Token.error = 1
enum_value Token.identifier = 2
enum_value Token.integer = 3
enum_value Token.float = 4
enum_value Token.string = 5
enum_value Token.kw_true = 6
enum_value Token.kw_false = 7
enum_value Token.kw_null = 8
enum_value Token.kw_nan = 9
enum_value Token.kw_inf = 10
enum_value Token.kw_var = 11
enum_value Token.kw_const = 12
enum_value Token.kw_any = 13
enum_value Token.kw_if = 14
enum_value Token.kw_else = 15
enum_value Token.kw_match = 16
enum_value Token.kw_case = 17
enum_value Token.kw_while = 18
enum_value Token.kw_do = 19
enum_value Token.kw_for = 20
enum_value Token.kw_in = 21
enum_value Token.kw_return = 22
enum_value Token.kw_break = 23
enum_value Token.kw_continue = 24
enum_value Token.kw_fn = 25
enum_value Token.kw_type = 26
enum_value Token.kw_interface = 27
enum_value Token.kw_extend = 28
enum_value Token.kw_self = 29
enum_value Token.kw_print = 30
enum_value Token.lparen = 31
enum_value Token.rparen = 32
enum_value Token.lbrace = 33
enum_value Token.rbrace = 34
enum_value Token.lbracket = 35
enum_value Token.rbracket = 36
enum_value Token.comma = 37
enum_value Token.semicolon = 38
enum_value Token.vsemicolon = 39
enum_value Token.colon = 40
enum_value Token.dot = 41
enum_value Token.arrow = 42
enum_value Token.plus = 43
enum_value Token.minus = 44
enum_value Token.star = 45
enum_value Token.slash = 46
enum_value Token.percent = 47
enum_value Token.amp = 48
enum_value Token.pipe = 49
enum_value Token.caret = 50
enum_value Token.tilde = 51
enum_value Token.lshift = 52
enum_value Token.rshift = 53
enum_value Token.amp_amp = 54
enum_value Token.pipe_pipe = 55
enum_value Token.bang = 56
enum_value Token.kw_and = 57
enum_value Token.kw_or = 58
enum_value Token.kw_not = 59
enum_value Token.assign = 60
enum_value Token.plus_assign = 61
enum_value Token.minus_assign = 62
enum_value Token.star_assign = 63
enum_value Token.slash_assign = 64
enum_value Token.percent_assign = 65
enum_value Token.amp_assign = 66
enum_value Token.pipe_assign = 67
enum_value Token.caret_assign = 68
enum_value Token.lshift_assign = 69
enum_value Token.rshift_assign = 70
enum_value Token.equal = 71
enum_value Token.bang_equal = 72
enum_value Token.less = 73
enum_value Token.greater = 74
enum_value Token.less_equal = 75
enum_value Token.greater_equal = 76
enum_value Token.line_comment = 77
enum_value Token.block_comment = 78
enum_value Token.token_max = 79

-- `type == expected`
unfoldable pub same_type : TokenType → TokenType → Bool
unfolding enum_value
same_type t u = enum_value t == enum_value u
