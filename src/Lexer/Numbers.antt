-- ===== src/Lexer/Numbers.antt =====
-- src/lexer.c, `lexer_scan_number`. `strtod` and `strtoll` are the C library's: for the text from the
-- start of the token they give a value, and whether `errno` is then `ERANGE`.
use Prim.Native.Nat.{bit_or}
use snuk.Prelude.{
  ℕ, ◌-◌, ◌*◌, ◌/◌, ◌^◌, Bool, true, false, not, ◌&&◌, List, [], ◌∷◌, drop, ltb, ◌==◌,
  if◌then◌else◌, Option, none, some, codes,
}
use snuk.Chars.{
  char_in_string, is_alpha, is_digit, is_binary_digit, is_octal_digit, is_hex_digit, lower_case,
}
use snuk.Lexer.Token.{
  TokenType, integer, float, Literal, int, double, Message, invalid_hex_literal,
  invalid_binary_literal, invalid_exponent, float_literal_out_of_range,
  integer_literal_out_of_range, Token,
}
use snuk.Lexer.Cursor.{
  Lexer, lexer_peek, lexer_peek_next, lexer_advance, advance_while, start_token, no_text,
  lexer_build_error_token,
}

pub record Libc (F : Type 0) : Type 0 where
  pub strtod : List ℕ → F × Bool
  pub strtoll : List ℕ → ℕ → ℕ × Bool

-- A part of the scan went well, or it ends in an error token.
pub data Scan (A : Type 0) : Type 0 where
  got : A → Lexer → Scan A
  bad : Message → Lexer → Scan A

infixl 5 ◌>>=◌
abbrev pub ◌>>=◌ : {A B : Type 0} → Scan A → (A → Lexer → Scan B) → Scan B
got a l >>= f = f a l
bad msg l >>= f = bad msg l

-- After `0x` or `0b`: one digit at least.
unfoldable pub prefixed_digits : ℕ → (ℕ → Bool) → Message → Lexer → Scan ℕ
unfolding lexer_advance lexer_peek advance_while
prefixed_digits base is_base_digit msg l =
    let l' = lexer_advance (lexer_advance l) in
    if not (is_base_digit (lexer_peek l'))
    then bad msg l'
    else got base (advance_while is_base_digit l')

-- "detect base", with the digits before a point
unfoldable pub scan_base : Lexer → Scan ℕ
unfolding prefixed_digits lexer_advance lexer_peek lexer_peek_next advance_while lower_case
    is_hex_digit is_binary_digit is_octal_digit is_digit
scan_base l =
    if lexer_peek l == b'0' && not (lexer_peek_next l == b'.')
    then (let c = lower_case (lexer_peek_next l) in
        if c == b'x'
        then prefixed_digits 16 is_hex_digit invalid_hex_literal l
        else if c == b'b'
        then prefixed_digits 2 is_binary_digit invalid_binary_literal l
        else if is_octal_digit (lexer_peek l)
        then got 8 (advance_while is_octal_digit (lexer_advance l))
        else got 10 (lexer_advance l))
    else got 10 (advance_while is_digit l)

-- "fraction": whether there is a point that starts one
unfoldable pub scan_fraction : ℕ → Lexer → Scan Bool
unfolding lexer_advance lexer_peek lexer_peek_next advance_while is_digit is_alpha
scan_fraction base l =
    if base == 10 && lexer_peek l == b'.' && not (is_alpha (lexer_peek_next l))
    then got true (advance_while is_digit (lexer_advance l))
    else got false l

unfoldable pub skip_sign : Lexer → Lexer
unfolding lexer_advance lexer_peek char_in_string
skip_sign l = if char_in_string (lexer_peek l) (codes "+-") then lexer_advance l else l

unfoldable pub scan_exponent : ℕ → Bool → Lexer → Scan Bool
unfolding lexer_advance lexer_peek advance_while skip_sign is_digit lower_case
scan_exponent base is_float l =
    if base == 10 && lower_case (lexer_peek l) == b'e'
    then (let l' = skip_sign (lexer_advance l) in
        if not (is_digit (lexer_peek l'))
        then bad invalid_exponent l'
        else got true (advance_while is_digit l'))
    else got is_float l

abbrev pub int64_max : ℕ
int64_max = 2 ^ 63 - 1

abbrev is_binary_char : ℕ → Bool
is_binary_char c = char_in_string c (codes "01")

-- The loop over a binary literal behind its prefix; `none` is the literal out of range.
unfoldable pub binary_value : ℕ → List ℕ → Option ℕ
unfolding char_in_string
binary_value n [] = some n
binary_value n (c ∷ s) =
    let rest = binary_value (bit_or (n * 2) (c - b'0')) s in
    if not (is_binary_char c) then some n else if ltb (int64_max / 2) n then none else rest

module _ {F : Type 0} (libc : Libc F) where
  unfoldable pub convert : ℕ → Bool → Lexer → Scan (Literal F)
  convert base is_float l =
      if is_float
      then (let (value, erange) = libc.strtod l.token_start in
          if erange then bad float_literal_out_of_range l else got (double value) l)
      else if base == 2
      then elim (binary_value 0 (drop 2 l.token_start)) [
        | some value ↦ got (int value) l
        | none ↦ bad integer_literal_out_of_range l
      ]
      else (let (value, erange) = libc.strtoll l.token_start base in
          if erange then bad integer_literal_out_of_range l else got (int value) l)

  unfoldable pub scan_literal : Lexer → Scan (Literal F)
  scan_literal l = scan_base l >>= λ base l1. scan_fraction base l1 >>= λ has_point l2.
      scan_exponent base has_point l2 >>= λ is_float l3. convert base is_float l3

  abbrev pub literal_type : Literal F → TokenType
  literal_type (double x) = float
  literal_type _ = integer

  -- The position of the token is the one that the scan started at.
  abbrev pub number_token : Lexer → Scan (Literal F) → Token F × Lexer
  number_token start (got literal l) = (
    record {
      type = literal_type literal;
      literal = literal;
      err_msg = none;
      leading_comment = no_text;
      trailing_comment = no_text;
      line = start.line;
      col = start.col;
    },
    record l { previous_token_type = literal_type literal },
  )
  number_token start (bad msg l) = lexer_build_error_token l msg

  unfoldable pub lexer_scan_number : Lexer → Token F × Lexer
  lexer_scan_number l = number_token l (scan_literal (start_token l))
