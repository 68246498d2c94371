-- ===== src/Lexer/Tests.antt =====
-- Runs of the lexer on small programs, and the theorems about it at concrete inputs.
use snuk.Prelude.{
  ℕ, ◌+◌, ◌-◌, ◌*◌, List, [], ◌∷◌, map, Option, none, some, Outcome, ok, trap, ◌≡◌, refl, codes,
  false,
}
use snuk.Chars.{char_in_string, is_white_space, is_alpha_numeric, is_digit}
use snuk.Text.{create_with_len, equal_cstr, equal_cstr_ignore_case}
use snuk.Lexer.Token
use snuk.Lexer.Token.{TokenType, ends_item}
use snuk.Lexer.Depth.{scope_depth_zero}
use snuk.Lexer.Cursor.{
  lexer_is_eof, lexer_peek, lexer_peek_next, lexer_advance, lexer_match, advance_while, start_token,
  depth_after, lexer_build_token, lexer_build_error_token, lexer_init,
}
use snuk.Lexer.Words.{keyword_in, value_in, check_keyword, check_values, word_type, lexer_scan_word}
use snuk.Lexer.Numbers.{
  Libc, scan_base, scan_fraction, scan_exponent, convert, scan_literal, lexer_scan_number,
}
use snuk.Lexer.Comments.{skip_body, lexer_scan_string, lexer_scan_comment}
use snuk.Lexer.Punctuation.{if_match, angle, single_case, operator_case, punctuation}
use snuk.Lexer.Next.{
  lexer_should_insert_vsemicolon, inserts_vsemicolon, at_comment, newlines_ahead, scan_comment_here,
  add_trailing, lexer_next_token, scan_token, after_blanks, snuk_lexer_next_token,
}
use snuk.Lexer.Run.{tokens}

-- A C library that reads decimal digits only, and knows no fraction.
abbrev digits_value : ℕ → List ℕ → ℕ
digits_value n [] = n
digits_value n (c ∷ s) = digits_value (n * 10 + (c - 48)) s

abbrev pub toy : Libc ℕ
toy = record { strtod = λ s. (0, false); strtoll = λ s base. (7, false) }

abbrev types : Option (Outcome (List (Token.Token ℕ))) → Option (Outcome (List TokenType))
types none = none
types (some (trap e)) = some (trap e)
types (some (ok ts)) = some (ok (map (λ t. t.type) ts))

unfoldable types_of : List ℕ → Option (Outcome (List TokenType))
unfolding tokens lexer_init snuk_lexer_next_token inserts_vsemicolon lexer_should_insert_vsemicolon
    scope_depth_zero ends_item after_blanks scan_token add_trailing at_comment scan_comment_here
    newlines_ahead lexer_next_token lexer_scan_number scan_literal scan_base scan_fraction
    scan_exponent convert lexer_scan_word word_type check_keyword check_values keyword_in value_in
    equal_cstr equal_cstr_ignore_case lexer_scan_string lexer_scan_comment skip_body punctuation
    single_case operator_case if_match angle lexer_match lexer_build_token lexer_build_error_token
    depth_after is_white_space is_alpha_numeric is_digit char_in_string start_token advance_while
    lexer_advance lexer_peek lexer_peek_next lexer_is_eof create_with_len
types_of s = types (tokens toy 40 (lexer_init s))

one_line :
    types_of (codes "var x = y")
    ≡ some (ok (Token.kw_var ∷ Token.identifier ∷ Token.assign ∷ Token.identifier ∷ Token.eof ∷ []))
unfolding types_of
one_line = refl

operators :
    types_of (codes "a<<=b->c")
    ≡ some (
        ok (
          Token.identifier ∷ Token.lshift_assign ∷ Token.identifier ∷ Token.arrow ∷ Token.identifier
          ∷ Token.eof ∷ []))
unfolding types_of
operators = refl

lines :
    types_of (codes "a\n+1\n")
    ≡ some (
        ok (
          Token.identifier ∷ Token.vsemicolon ∷ Token.plus ∷ Token.integer ∷ Token.vsemicolon
          ∷ Token.eof ∷ []))
unfolding types_of
lines = refl
