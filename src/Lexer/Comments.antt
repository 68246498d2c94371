-- ===== src/Lexer/Comments.antt =====
-- src/lexer.c: string literals and comments.
use snuk.Prelude.{
  ℕ, Bool, true, false, not, ◌||◌, List, [], ◌∷◌, ◌==◌, if◌then◌else◌, Outcome, ok, ◌>>=◌,
}
use snuk.Lexer.Token.{
  string, line_comment, block_comment, unterminated_string, unterminated_comment, Token,
}
use snuk.Lexer.Cursor.{
  Lexer, char_at, step_over, lexer_is_eof, lexer_advance, advance_while, start_token,
  lexer_build_token, lexer_build_error_token,
}

-- `while (lexer_peek(lexer) != '*' || lexer_peek_next(lexer) != '/')`, up to the end of the text
abbrev pub skip_body_at : List ℕ → Lexer → Lexer
skip_body_at [] l = l
skip_body_at (c ∷ rest) l =
    let next = skip_body_at rest (step_over c rest l) in
    if not (c == b'*') || not (char_at rest == b'/') then next else l

unfoldable pub skip_body : Lexer → Lexer
skip_body l = skip_body_at l.cur l

module _ {F : Type 0} where
  -- The opening quote is consumed.
  unfoldable pub lexer_scan_string : Lexer → ℕ → Outcome (Token F × Lexer)
  lexer_scan_string l quote =
      let end = advance_while (λ c. not (c == quote)) l in
      if lexer_is_eof end
      then ok (lexer_build_error_token end unterminated_string)
      else lexer_build_token (lexer_advance end) string

  -- Both characters of the opener are consumed; the argument is `multi_line`.
  unfoldable pub lexer_scan_comment : Lexer → Bool → Outcome (Token F × Lexer)
  lexer_scan_comment l false =
      lexer_build_token (advance_while (λ c. not (c == b'\n')) (start_token l)) line_comment
  lexer_scan_comment l true =
      let end = skip_body (start_token l) in
      if lexer_is_eof end then ok (lexer_build_error_token end unterminated_comment) else do
        (token, l') ← lexer_build_token end block_comment
        ok (token, lexer_advance (lexer_advance l'))
