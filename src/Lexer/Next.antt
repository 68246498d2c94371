-- ===== src/Lexer/Next.antt =====
-- src/lexer.c: `lexer_next_token` and `snuk_lexer_next_token`.
use snuk.Prelude.{
  ℕ, ◌+◌, Bool, false, not, ◌&&◌, ◌||◌, List, [], ◌∷◌, ltb, ◌==◌, if◌then◌else◌, Outcome, ok, ◌>>=◌,
  codes,
}
use snuk.Chars.{char_in_string, is_white_space, is_digit, is_alpha_numeric}
use snuk.Text.{StringView}
use snuk.Lexer.Token.{vsemicolon, ends_item, Literal, text, Token}
use snuk.Lexer.Depth.{scope_depth_zero}
use snuk.Lexer.Cursor.{
  Lexer, lexer_peek, lexer_peek_next, lexer_advance, advance_while, start_token, no_text,
  lexer_build_token,
}
use snuk.Lexer.Words.{lexer_scan_word}
use snuk.Lexer.Numbers.{Libc, lexer_scan_number}
use snuk.Lexer.Comments.{lexer_scan_comment}
use snuk.Lexer.Punctuation.{punctuation}

-- `IGNORED_WHITE_SPACES` and `AUTO_SEMICOLON_CANDIDATES`
abbrev pub is_ignored : ℕ → Bool
is_ignored c = char_in_string c (codes " \t\r")

abbrev pub is_candidate : ℕ → Bool
is_candidate c = char_in_string c (codes "}\n")

unfoldable pub lexer_should_insert_vsemicolon : Lexer → Outcome Bool
lexer_should_insert_vsemicolon l = do
  closed ← scope_depth_zero l.sd
  ok (if not closed then false else ends_item l.previous_token_type)

-- The test in front of that call, with the call.
unfoldable pub inserts_vsemicolon : Lexer → Outcome Bool
inserts_vsemicolon l =
    if is_candidate (lexer_peek l) then lexer_should_insert_vsemicolon l else ok false

unfoldable pub at_comment : Lexer → Bool
at_comment l = lexer_peek l == b'/' && char_in_string (lexer_peek_next l) (codes "/*")

-- `for (i = 0; is_white_space(cur[i]); ++i) if (cur[i] == '\n') ++count;`
unfoldable pub newlines_ahead : List ℕ → ℕ
newlines_ahead [] = 0
newlines_ahead (c ∷ s) =
    let rest = newlines_ahead s in
    if is_white_space c then (if c == b'\n' then rest + 1 else rest) else 0

-- The view of a comment token; its literal is always a view.
abbrev pub string_literal : {F : Type 0} → Literal F → StringView
string_literal (text v) = v
string_literal _ = no_text

module _ {F : Type 0} where
  -- `lexer_advance(lexer); lexer_scan_comment(lexer, lexer_advance(lexer) == '*')`
  unfoldable pub scan_comment_here : Lexer → Outcome (Token F × Lexer)
  scan_comment_here l =
      let l' = lexer_advance l in lexer_scan_comment (lexer_advance l') (lexer_peek l' == b'*')

  -- What follows the token on its line.
  unfoldable pub add_trailing : StringView → Token F → Lexer → Outcome (Token F × Lexer)
  add_trailing leading token l0 =
      let l = advance_while is_ignored l0 in
      if at_comment l
      then (do
        (comment, l') ← scan_comment_here l
        ok (
          record token {
            leading_comment = leading;
            trailing_comment = string_literal comment.literal;
          },
          record l' { previous_token_type = l.previous_token_type },
        ))
      else ok (record token { leading_comment = leading; trailing_comment = no_text }, l)

module _ {F : Type 0} (libc : Libc F) where
  unfoldable pub lexer_next_token : Lexer → Outcome (Token F × Lexer)
  lexer_next_token l0 =
      let l = start_token l0 in
      let c = lexer_peek l in
      if is_digit c
      then ok (lexer_scan_number libc l)
      else if c == b'.' && is_digit (lexer_peek_next l)
      then ok (lexer_scan_number libc l)
      else if is_alpha_numeric c || c == b'_'
      then lexer_scan_word l
      else punctuation c (lexer_advance l)

  -- From the second loop over white space on.
  unfoldable pub scan_token : StringView → Lexer → Outcome (Token F × Lexer)
  scan_token leading l = do
    (token, l') ← lexer_next_token (advance_while is_white_space l)
    add_trailing leading token l'

  -- From the test for a leading comment on.
  unfoldable pub after_blanks : Lexer → Outcome (Token F × Lexer)
  after_blanks l =
      if at_comment l
      then (do
        (comment, l') ← scan_comment_here l
        if ltb 1 (newlines_ahead l'.cur)
            then ok (comment, l')
            else scan_token (string_literal comment.literal) l')
      else scan_token no_text l

  unfoldable pub snuk_lexer_next_token : Lexer → Outcome (Token F × Lexer)
  snuk_lexer_next_token l0 =
      let l = start_token (advance_while is_ignored l0) in
      do
        insert ← inserts_vsemicolon l
        if insert
            then lexer_build_token l vsemicolon
            else after_blanks (advance_while is_white_space l)
