-- ===== src/Lexer/Unfold.antt =====
-- One name for all functions of the lexer, to run it in a proof.
use snuk.Chars.{char_in_string, is_white_space, is_alpha_numeric, is_digit}
use snuk.Text.{create_with_len, equal_cstr, equal_cstr_ignore_case}
use snuk.Lexer.Token.{ends_item, Token}
use snuk.Lexer.Depth.{scope_depth_zero}
use snuk.Lexer.Cursor.{
  Lexer, lexer_is_eof, lexer_peek, lexer_peek_next, lexer_advance, lexer_match, advance_while,
  start_token, depth_after, lexer_build_token, lexer_build_error_token, lexer_init,
}
use snuk.Lexer.Words.{keyword_in, value_in, check_keyword, check_values, word_type, lexer_scan_word}
use snuk.Lexer.Numbers.{
  Libc, scan_base, scan_fraction, scan_exponent, convert, scan_literal, lexer_scan_number,
}
use snuk.Lexer.Comments.{skip_body, lexer_scan_string, lexer_scan_comment}
use snuk.Lexer.Punctuation.{if_match, angle, single_case, operator_case, punctuation}
use snuk.Lexer.Next.{
  lexer_should_insert_vsemicolon, inserts_vsemicolon, at_comment, newlines_ahead, scan_comment_here,
  add_trailing, lexer_next_token, scan_token, after_blanks, snuk_lexer_next_token,
}
use snuk.Prelude.{Outcome}

-- `snuk_lexer_next_token`; where this unfolds, all that it calls does.
unfoldable pub next_token : {F : Type 0} → Libc F → Lexer → Outcome (Token F × Lexer)
unfolding snuk_lexer_next_token inserts_vsemicolon lexer_should_insert_vsemicolon scope_depth_zero
    ends_item after_blanks scan_token add_trailing at_comment scan_comment_here newlines_ahead
    lexer_next_token lexer_scan_number scan_literal scan_base scan_fraction scan_exponent convert
    lexer_scan_word word_type check_keyword check_values keyword_in value_in equal_cstr
    equal_cstr_ignore_case lexer_scan_string lexer_scan_comment skip_body punctuation single_case
    operator_case if_match angle lexer_match lexer_build_token lexer_build_error_token depth_after
    is_white_space is_alpha_numeric is_digit char_in_string start_token advance_while lexer_advance
    lexer_peek lexer_peek_next lexer_is_eof create_with_len lexer_init
next_token libc l = snuk_lexer_next_token libc l
