-- ===== src/Lexer/Cursor.antt =====
-- src/lexer.c: the state of the lexer, the cursor, and the tokens built from it. `cur` and
-- `token_start` are pointers into the source: the text from there on.
use snuk.Prelude.{
  ℕ, ◌+◌, ◌-◌, Bool, not, List, [], ◌∷◌, length, drop, ◌==◌, if◌then◌else◌, Option, none, some,
  Outcome, ok, ◌>>=◌,
}
use snuk.Text.{StringView, create_with_len}
use snuk.Lexer.Token.{
  TokenType, error, token_max, lparen, rparen, lbrace, rbrace, lbracket, rbracket, Token, text,
  Message,
}
use snuk.Lexer.Depth.{
  Depths, scope_depth_push, scope_depth_pop, scope_depth_add_paren, scope_depth_remove_paren,
  scope_depth_add_bracket, scope_depth_remove_bracket,
}

pub record Lexer : Type 0 where
  pub src : List ℕ
  pub cur : List ℕ
  pub token_start : List ℕ
  pub token_start_line : ℕ
  pub token_start_col : ℕ
  pub line : ℕ
  pub col : ℕ
  pub previous_token_type : TokenType
  pub sd : Depths

-- `*p`
abbrev pub char_at : List ℕ → ℕ
char_at [] = 0
char_at (c ∷ s) = c

-- `*(p + 1)`, and '\0' where `p` is at the terminator
abbrev pub char_after : List ℕ → ℕ
char_after [] = 0
char_after (c ∷ s) = char_at s

unfoldable pub lexer_is_eof : Lexer → Bool
lexer_is_eof l = char_at l.cur == 0

unfoldable pub lexer_peek : Lexer → ℕ
lexer_peek l = char_at l.cur

unfoldable pub lexer_peek_next : Lexer → ℕ
lexer_peek_next l = char_after l.cur

-- What `lexer_advance` does at the character `c` in front of `rest`.
abbrev pub step_over : ℕ → List ℕ → Lexer → Lexer
step_over c rest l =
    if c == b'\n'
    then record l { cur = rest; col = 0; line = l.line + 1 }
    else record l { cur = rest; col = l.col + 1 }

abbrev pub advance_at : List ℕ → Lexer → Lexer
advance_at [] l = l
advance_at (c ∷ rest) l = step_over c rest l

unfoldable pub lexer_advance : Lexer → Lexer
lexer_advance l = advance_at l.cur l

-- The new state where the character was there.
unfoldable pub lexer_match : Lexer → ℕ → Option Lexer
unfolding lexer_peek lexer_advance
lexer_match l expected = if not (lexer_peek l == expected) then none else some (lexer_advance l)

-- `while (p(lexer_peek(lexer))) lexer_advance(lexer);` The tests `p` of the lexer fail at the
-- terminator, where the loop ends therefore.
abbrev pub advance_while_at : (ℕ → Bool) → List ℕ → Lexer → Lexer
advance_while_at p [] l = l
advance_while_at p (c ∷ rest) l =
    let next = advance_while_at p rest (step_over c rest l) in if p c then next else l

unfoldable pub advance_while : (ℕ → Bool) → Lexer → Lexer
advance_while p l = advance_while_at p l.cur l

-- The assignments with which each scanning function begins.
unfoldable pub start_token : Lexer → Lexer
start_token l = record l { token_start = l.cur; token_start_line = l.line; token_start_col = l.col }

-- The switch of `lexer_build_token`.
unfoldable pub depth_after : TokenType → Depths → Outcome Depths
unfolding scope_depth_push scope_depth_pop scope_depth_add_paren scope_depth_remove_paren
    scope_depth_add_bracket scope_depth_remove_bracket
depth_after lbracket sd = scope_depth_add_bracket sd
depth_after rbracket sd = scope_depth_remove_bracket sd
depth_after lparen sd = scope_depth_add_paren sd
depth_after rparen sd = scope_depth_remove_paren sd
depth_after lbrace sd = ok (scope_depth_push sd)
depth_after rbrace sd = scope_depth_pop sd
depth_after _ sd = ok sd

abbrev pub no_text : StringView
no_text = record { str = []; len = 0 }

-- `cur - p` for a pointer `p` that is not behind `cur`
abbrev pub distance : List ℕ → List ℕ → ℕ
distance p cur = length p - length cur

-- `lexer->cur - lexer->col`
abbrev pub line_start : Lexer → List ℕ
line_start l = drop (distance l.src l.cur - l.col) l.src

-- The length up to the end of the line or of the text.
abbrev pub line_length : List ℕ → ℕ
line_length [] = 0
line_length (c ∷ s) = if c == b'\n' then 0 else line_length s + 1

module _ {F : Type 0} where
  abbrev pub token_of : Lexer → TokenType → Token F
  token_of l type = record {
    type = type;
    literal = text (create_with_len l.token_start (distance l.token_start l.cur));
    err_msg = none;
    leading_comment = no_text;
    trailing_comment = no_text;
    line = l.token_start_line;
    col = l.token_start_col;
  }

  unfoldable pub lexer_build_token : Lexer → TokenType → Outcome (Token F × Lexer)
  unfolding depth_after create_with_len
  lexer_build_token l type = do
    sd ← depth_after type l.sd
    ok (token_of l type, record l { previous_token_type = type; sd = sd })

  unfoldable pub lexer_build_error_token : Lexer → Message → Token F × Lexer
  unfolding create_with_len
  lexer_build_error_token l msg =
      let start = line_start l in
      (
        record {
          type = error;
          literal = text (create_with_len start (line_length start));
          err_msg = some msg;
          leading_comment = no_text;
          trailing_comment = no_text;
          line = l.line;
          col = l.col;
        },
        record l { previous_token_type = error },
      )

unfoldable pub lexer_init : List ℕ → Lexer
unfolding scope_depth_push
lexer_init src = record {
  src = src;
  cur = src;
  token_start = src;
  token_start_line = 0;
  token_start_col = 0;
  line = 0;
  col = 0;
  previous_token_type = token_max;
  sd = scope_depth_push [];
}
