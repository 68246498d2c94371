-- ===== src/Parser/Start.antt =====
-- src/parser/parser.c: the parser in front of a text, with the tokens of the lexer. A null message is the
-- empty text.
use snuk.Prelude.{ℕ, zero, suc, false, List, Outcome, ok, ◌>>=◌, none, if◌then◌else◌}
use snuk.Lexer.Token
use snuk.Lexer.Token.{Token}
use snuk.Lexer.Cursor.{Lexer, lexer_init, no_text}
use snuk.Lexer.Numbers.{Libc}
use snuk.Lexer.Next.{snuk_lexer_next_token}
use snuk.Parser.Enum.{same_type}
use snuk.Parser.State.{Stream, Parser, raise_error}

-- `(SnukToken){0}`
abbrev pub zero_token : {F : Type 0} → Token F
zero_token = record {
  type = Token.eof;
  literal = Token.text no_text;
  err_msg = none;
  leading_comment = no_text;
  trailing_comment = no_text;
  line = 0;
  col = 0;
}

module _ {F : Type 0} (libc : Libc F) where
  -- The token of the call number `i` from here.
  unfoldable pub tokens_from : Lexer → Stream F
  unfolding snuk_lexer_next_token
  tokens_from l zero = do (t, l') ← snuk_lexer_next_token libc l; ok t
  tokens_from l (suc i) = do (t, l') ← snuk_lexer_next_token libc l; tokens_from l' i

  -- The lookahead is read; an error of the lexer is reported at once.
  unfoldable pub start_at : Stream F → Token F → Token F → Parser F
  unfolding raise_error same_type
  start_at tokens t next =
      let p : Parser F = record {
        lexer = λ i. tokens (suc (suc i));
        previous = zero_token;
        current = t;
        next = next;
        panic_mode = false;
        err_msg = "";
        err_token = zero_token;
      } in
      if same_type t.type Token.error then raise_error "lexer error" p else p

  unfoldable pub snuk_parser_init : List ℕ → Outcome (Parser F)
  unfolding tokens_from lexer_init start_at
  snuk_parser_init src =
      let tokens = tokens_from (lexer_init src) in
      tokens 0 >>= λ t. tokens 1 >>= λ next. ok (start_at tokens t next)
