-- ===== src/Lexer/Examples.antt =====
-- The theorems about the lexer at concrete inputs.
use snuk.Prelude.{
  ℕ, ◌+◌, ◌*◌, List, [], ◌++◌, ◌≡◌, ◌↔◌, refl, length, some, none, ok, trap, codes, Outcome, wild,
}
use snuk.Text.{content}
use snuk.Lexer.Token
use snuk.Lexer.Token.{Token}
use snuk.Lexer.Cursor.{Lexer, lexer_init, lexer_build_error_token}
use snuk.Lexer.Words.{is_word_char, lexer_scan_word}
use snuk.Lexer.Next.{snuk_lexer_next_token, string_literal}
use snuk.Lexer.Run.{tokens}
use snuk.Lexer.Unfold.{next_token}
use snuk.Lexer.Place.{place, Reads, newlines}
use snuk.Lexer.Progress.Whole.{semicolon_exact, Inserts}
use snuk.Lexer.Progress.Finish.{tokens_total}
use snuk.Lexer.Position.{start, Reached-Reads, error_token_line, last_line, first_line}
use snuk.Lexer.Spelling.{take_while, drop_while, spelling_type}
use snuk.Lexer.WordScan.{scan_word_lem}
use snuk.Lexer.Trouble.{unclosed_comment, stray_brace}
use snuk.Lexer.Tests.{toy}

tokens_total_example :
    (r : Outcome (List (Token ℕ))) × (tokens toy
        (length (codes "a = 1\n") * 2 + 1)
        (lexer_init (codes "a = 1\n"))
      ≡ some r)
tokens_total_example = tokens_total toy (codes "a = 1\n")

-- The state behind the word of a line, and the token that comes next there.
abbrev word_line : Lexer
word_line = record (lexer_init (codes "a\n")) {
  cur = codes "\n";
  col = 1;
  previous_token_type = Token.identifier;
}

abbrev semicolon_token : Token ℕ
semicolon_token = record {
  type = Token.vsemicolon;
  literal = Token.text (record { str = codes "\n"; len = 0 });
  err_msg = none;
  leading_comment = record { str = []; len = 0 };
  trailing_comment = record { str = []; len = 0 };
  line = 0;
  col = 1;
}

line_end :
    snuk_lexer_next_token toy word_line
    ≡ ok (
      semicolon_token,
      record word_line {
        token_start = codes "\n";
        token_start_col = 1;
        previous_token_type = Token.vsemicolon;
      },
    )
unfolding next_token
line_end = refl

semicolon_exact_example : (Token.vsemicolon ≡ Token.vsemicolon) ↔ Inserts word_line
semicolon_exact_example = semicolon_exact toy word_line _ semicolon_token line_end

scan_word_lem_example :
    (t : Token ℕ) × (l' : Lexer) × (lexer_scan_word (lexer_init (codes "while x")) ≡ ok (t, l'))
    × (content (string_literal t.literal) ≡ take_while is_word_char (codes "while x"))
    × (t.type ≡ spelling_type (take_while is_word_char (codes "while x")))
    × (t.line ≡ 0)
    × (t.col ≡ 0)
    × (l'.cur ≡ drop_while is_word_char (codes "while x"))
unfolding lexer_init
scan_word_lem_example = scan_word_lem ℕ (lexer_init (codes "while x"))

nothing_read : Reads (place (lexer_init (codes "@ 1\n2"))) (place (lexer_init (codes "@ 1\n2")))
nothing_read = Reached-Reads {libc = toy} start

error_token_line_example :
    let token =
      (lexer_build_error_token {F = ℕ}
        (lexer_init (codes "@ 1\n2"))
        Token.unexpected_character).0 in
    (content (string_literal token.literal)
      ≡ last_line nothing_read.read ++ first_line (codes "@ 1\n2"))
    × (token.line ≡ newlines nothing_read.read)
    × (token.col ≡ length (last_line nothing_read.read))
unfolding lexer_init
error_token_line_example =
    error_token_line ℕ (codes "@ 1\n2") (lexer_init (codes "@ 1\n2")) Token.unexpected_character
      nothing_read

Reached-Reads_example : Reads (place (lexer_init (codes "a"))) (place (lexer_init (codes "a")))
Reached-Reads_example = Reached-Reads {libc = toy} start

unclosed_comment_example :
    (t : Token ℕ) × (l : Lexer) × (snuk_lexer_next_token toy (lexer_init (codes "/* x = 1"))
      ≡ ok (t, l))
    × (t.type ≡ Token.eof)
    × (t.err_msg ≡ none)
    × (l.cur ≡ [])
unfolding lexer_init
unclosed_comment_example =
    unclosed_comment toy (lexer_init (codes "/* x = 1")) (codes " x = 1") refl refl

stray_brace_example :
    (t : Token ℕ) × (l : Lexer) × (snuk_lexer_next_token toy (lexer_init (codes "}\nx"))
      ≡ ok (t, l))
    × (t.type ≡ Token.rbrace)
    × (l.sd ≡ [])
    × (snuk_lexer_next_token toy l ≡ trap wild)
unfolding lexer_init Token.ends_item
stray_brace_example =
    stray_brace toy (lexer_init (codes "}\nx")) (record { paren = 0; bracket = 0 }) (codes "x") refl
      refl refl refl refl
