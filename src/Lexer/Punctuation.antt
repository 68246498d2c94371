-- ===== src/Lexer/Punctuation.antt =====
-- src/lexer.c: the switch of `lexer_next_token` over the character that it has consumed.
use snuk.Prelude.{ℕ, true, false, ◌||◌, ◌==◌, if◌then◌else◌, none, some, Outcome, ok}
use snuk.Lexer.Token.{
  TokenType, eof, lparen, rparen, lbrace, rbrace, lbracket, rbracket, comma, semicolon, colon, dot,
  arrow, plus, minus, star, slash, percent, amp, pipe, caret, tilde, lshift, rshift, amp_amp,
  pipe_pipe, bang, assign, plus_assign, minus_assign, star_assign, slash_assign, percent_assign,
  amp_assign, pipe_assign, caret_assign, lshift_assign, rshift_assign, equal, bang_equal, less,
  greater, less_equal, greater_equal, unexpected_character, Token,
}
use snuk.Lexer.Cursor.{Lexer, lexer_match, lexer_build_token, lexer_build_error_token}
use snuk.Lexer.Comments.{lexer_scan_string, lexer_scan_comment}

module _ {F : Type 0} where
  abbrev pub build : TokenType → Lexer → Outcome (Token F × Lexer)
  build type l = lexer_build_token l type

  -- `if (lexer_match(lexer, c)) return ...;`, and what stands behind it
  unfoldable pub if_match :
      ℕ
      → Lexer
      → (Lexer → Outcome (Token F × Lexer))
      → (Lexer → Outcome (Token F × Lexer))
      → Outcome (Token F × Lexer)
  if_match c l matched other = elim (lexer_match l c) [ some l' ↦ matched l' | none ↦ other l ]

  -- `case '<'` and `case '>'`: the operator alone, doubled, doubled before `=`, and before `=`
  unfoldable pub angle :
      ℕ → TokenType → TokenType → TokenType → TokenType → Lexer → Outcome (Token F × Lexer)
  unfolding if_match
  angle c single doubled doubled_assign single_assign l =
      if_match c l (λ l1. if_match b'=' l1 (build doubled_assign) (build doubled))
        λ l1. if_match b'=' l1 (build single_assign) (build single)

  -- the cases of brackets and of single characters
  unfoldable pub single_case : ℕ → Lexer → Outcome (Token F × Lexer) → Outcome (Token F × Lexer)
  single_case c l other =
      if c == 0
      then build eof l
      else if c == b'('
      then build lparen l
      else if c == b')'
      then build rparen l
      else if c == b'{'
      then build lbrace l
      else if c == b'}'
      then build rbrace l
      else if c == b'['
      then build lbracket l
      else if c == b']'
      then build rbracket l
      else if c == b'.'
      then build dot l
      else if c == b':'
      then build colon l
      else if c == b';'
      then build semicolon l
      else if c == b'~'
      then build tilde l
      else if c == b','
      then build comma l
      else other

  -- the cases of operators, of comments and of strings, and the error behind the switch
  unfoldable pub operator_case : ℕ → Lexer → Outcome (Token F × Lexer)
  unfolding if_match angle
  operator_case c l =
      if c == b'+'
      then if_match b'=' l (build plus_assign) (build plus)
      else if c == b'-'
      then if_match b'>' l (build arrow) (λ l1. if_match b'=' l1 (build minus_assign) (build minus))
      else if c == b'*'
      then if_match b'=' l (build star_assign) (build star)
      else if c == b'/'
      then if_match b'=' l (build slash_assign) (λ l1.
        if_match b'/' l1 (λ l2. lexer_scan_comment l2 false)
          (λ l2. if_match b'*' l2 (λ l3. lexer_scan_comment l3 true) (build slash)))
      else if c == b'%'
      then if_match b'=' l (build percent_assign) (build percent)
      else if c == b'<'
      then angle b'<' less lshift lshift_assign less_equal l
      else if c == b'>'
      then angle b'>' greater rshift rshift_assign greater_equal l
      else if c == b'='
      then if_match b'=' l (build equal) (build assign)
      else if c == b'!'
      then if_match b'=' l (build bang_equal) (build bang)
      else if c == b'&'
      then if_match b'&' l (build amp_amp) (λ l1. if_match b'=' l1 (build amp_assign) (build amp))
      else if c == b'|'
      then if_match b'|' l (build pipe_pipe)
          (λ l1. if_match b'=' l1 (build pipe_assign) (build pipe))
      else if c == b'^'
      then if_match b'=' l (build caret_assign) (build caret)
      else if c == b'"' || c == b'\''
      then lexer_scan_string l c
      else ok (lexer_build_error_token l unexpected_character)

  unfoldable pub punctuation : ℕ → Lexer → Outcome (Token F × Lexer)
  punctuation c l = single_case c l (operator_case c l)
