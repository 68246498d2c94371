-- ===== src/Parser/Rules.antt =====
-- src/parser/snuk_expr.c: the precedences, and the rule of each type of token.
use snuk.Prelude.{ℕ}
use snuk.Lexer.Token
use snuk.Lexer.Token.{TokenType}

-- The levels of the enumeration `Precedence`.
abbrev pub precedence_none : ℕ
precedence_none = 0

abbrev pub precedence_assignment : ℕ
precedence_assignment = 1

abbrev pub precedence_logical_or : ℕ
precedence_logical_or = 2

abbrev pub precedence_logical_and : ℕ
precedence_logical_and = 3

abbrev pub precedence_or : ℕ
precedence_or = 4

abbrev pub precedence_xor : ℕ
precedence_xor = 5

abbrev pub precedence_and : ℕ
precedence_and = 6

abbrev pub precedence_equality : ℕ
precedence_equality = 7

abbrev pub precedence_comparision : ℕ
precedence_comparision = 8

abbrev pub precedence_shift : ℕ
precedence_shift = 9

abbrev pub precedence_term : ℕ
precedence_term = 10

abbrev pub precedence_factor : ℕ
precedence_factor = 11

abbrev pub precedence_unary : ℕ
precedence_unary = 12

abbrev pub precedence_primary : ℕ
precedence_primary = 13

-- The functions that start an expression; `no_prefix` is the null pointer.
pub data PrefixFn : Type 0 where
  no_prefix : PrefixFn
  parse_primary parse_grouping parse_list parse_unary parse_if parse_match parse_while : PrefixFn
  parse_for parse_fn parse_type_token parse_block parse_comment parse_self : PrefixFn

-- The functions that continue an expression; `no_infix` is the null pointer.
pub data InfixFn : Type 0 where
  no_infix : InfixFn
  parse_call parse_binary parse_assignment parse_compound_assignment parse_member : InfixFn

unfoldable pub prefix_rule : TokenType → PrefixFn
prefix_rule Token.identifier = parse_primary
prefix_rule Token.integer = parse_primary
prefix_rule Token.float = parse_primary
prefix_rule Token.string = parse_primary
prefix_rule Token.kw_true = parse_primary
prefix_rule Token.kw_false = parse_primary
prefix_rule Token.kw_null = parse_primary
prefix_rule Token.kw_nan = parse_primary
prefix_rule Token.kw_inf = parse_primary
prefix_rule Token.lparen = parse_grouping
prefix_rule Token.lbracket = parse_list
prefix_rule Token.plus = parse_unary
prefix_rule Token.minus = parse_unary
prefix_rule Token.bang = parse_unary
prefix_rule Token.kw_not = parse_unary
prefix_rule Token.tilde = parse_unary
prefix_rule Token.kw_if = parse_if
prefix_rule Token.kw_match = parse_match
prefix_rule Token.kw_while = parse_while
prefix_rule Token.kw_do = parse_while
prefix_rule Token.kw_for = parse_for
prefix_rule Token.kw_fn = parse_fn
prefix_rule Token.kw_type = parse_type_token
prefix_rule Token.lbrace = parse_block
prefix_rule Token.line_comment = parse_comment
prefix_rule Token.block_comment = parse_comment
prefix_rule Token.kw_self = parse_self
prefix_rule _ = no_prefix

unfoldable pub infix_rule : TokenType → InfixFn
infix_rule Token.lparen = parse_call
infix_rule Token.plus = parse_binary
infix_rule Token.minus = parse_binary
infix_rule Token.star = parse_binary
infix_rule Token.slash = parse_binary
infix_rule Token.percent = parse_binary
infix_rule Token.assign = parse_assignment
infix_rule Token.plus_assign = parse_compound_assignment
infix_rule Token.minus_assign = parse_compound_assignment
infix_rule Token.star_assign = parse_compound_assignment
infix_rule Token.slash_assign = parse_compound_assignment
infix_rule Token.percent_assign = parse_compound_assignment
infix_rule Token.lshift_assign = parse_compound_assignment
infix_rule Token.rshift_assign = parse_compound_assignment
infix_rule Token.pipe_assign = parse_compound_assignment
infix_rule Token.amp_assign = parse_compound_assignment
infix_rule Token.caret_assign = parse_compound_assignment
infix_rule Token.equal = parse_binary
infix_rule Token.bang_equal = parse_binary
infix_rule Token.less = parse_binary
infix_rule Token.less_equal = parse_binary
infix_rule Token.greater = parse_binary
infix_rule Token.greater_equal = parse_binary
infix_rule Token.pipe = parse_binary
infix_rule Token.caret = parse_binary
infix_rule Token.amp = parse_binary
infix_rule Token.pipe_pipe = parse_binary
infix_rule Token.kw_or = parse_binary
infix_rule Token.amp_amp = parse_binary
infix_rule Token.kw_and = parse_binary
infix_rule Token.lshift = parse_binary
infix_rule Token.rshift = parse_binary
infix_rule Token.dot = parse_member
infix_rule _ = no_infix

unfoldable pub precedence_of : TokenType → ℕ
precedence_of Token.lparen = precedence_primary
precedence_of Token.plus = precedence_term
precedence_of Token.minus = precedence_term
precedence_of Token.star = precedence_factor
precedence_of Token.slash = precedence_factor
precedence_of Token.percent = precedence_factor
precedence_of Token.assign = precedence_assignment
precedence_of Token.plus_assign = precedence_assignment
precedence_of Token.minus_assign = precedence_assignment
precedence_of Token.star_assign = precedence_assignment
precedence_of Token.slash_assign = precedence_assignment
precedence_of Token.percent_assign = precedence_assignment
precedence_of Token.lshift_assign = precedence_assignment
precedence_of Token.rshift_assign = precedence_assignment
precedence_of Token.pipe_assign = precedence_assignment
precedence_of Token.amp_assign = precedence_assignment
precedence_of Token.caret_assign = precedence_assignment
precedence_of Token.equal = precedence_equality
precedence_of Token.bang_equal = precedence_equality
precedence_of Token.less = precedence_comparision
precedence_of Token.less_equal = precedence_comparision
precedence_of Token.greater = precedence_comparision
precedence_of Token.greater_equal = precedence_comparision
precedence_of Token.pipe = precedence_or
precedence_of Token.caret = precedence_xor
precedence_of Token.amp = precedence_and
precedence_of Token.pipe_pipe = precedence_logical_or
precedence_of Token.kw_or = precedence_logical_or
precedence_of Token.amp_amp = precedence_logical_and
precedence_of Token.kw_and = precedence_logical_and
precedence_of Token.lshift = precedence_shift
precedence_of Token.rshift = precedence_shift
precedence_of Token.dot = precedence_primary
precedence_of _ = precedence_none
