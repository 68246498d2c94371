-- ===== src/Lexer/Progress/Piece.antt =====
-- Words, numbers, strings and comments.
use snuk.Prelude.{
  ℕ, ◌≡◌, refl, Bool, true, false, not, ◌&&◌, ◌||◌, List, [], ◌∷◌, arith, ◌==◌, if◌then◌else◌,
  Bool-cases, inl, inr, ok,
}
use snuk.Chars.{is_alpha_numeric, is_digit}
use snuk.Text.{StringView, create_with_len}
use snuk.Lexer.Token.{
  TokenType, Literal, text, int, double, string, line_comment, block_comment, unterminated_string,
  unterminated_comment,
}
use snuk.Lexer.Cursor.{
  Lexer, step_over, char_at, lexer_peek, lexer_peek_next, lexer_advance, lexer_is_eof,
  advance_while, start_token, distance, lexer_build_token,
}
use snuk.Lexer.Words.{
  KeyWord, Value, keywords, values, keyword_in, value_in, check_keyword, check_values, is_eof,
  word_type, is_word_char, lexer_scan_word,
}
use snuk.Lexer.Numbers.{Libc, Scan, number_token, lexer_scan_number}
use snuk.Lexer.Comments.{skip_body_at, skip_body, lexer_scan_string, lexer_scan_comment}
use snuk.Lexer.Place.{
  Place, place, Reads, Reads-refl, Reads-trans, Reads-advance, Reads-advance_while, Passes,
  Passes-Reads, Reads-Passes, Passes-advance_while, Reads-step_over, cur-step_over,
}
use snuk.Lexer.Yields.{
  is_plain, Yields, yields, Scanned, build_token-Scanned, build_error_token-Scanned,
}
use snuk.Lexer.Progress.Number.{
  Stops, stops_got, stops_bad, scan_literal-Passes, scan_literal-Passes_point,
}

abbrev keywords_plain : List KeyWord → Bool
keywords_plain [] = true
keywords_plain (k ∷ ks) = is_plain k.type && keywords_plain ks

abbrev values_plain : List Value → Bool
values_plain [] = true
values_plain (v ∷ vs) = is_plain v.type && values_plain vs

keyword_in-plain :
    (ks : List KeyWord) (w : StringView)
    → keywords_plain ks ≡ true
    → is_plain (keyword_in ks w) ≡ true
unfolding keyword_in
keyword_in-plain [] w h = refl
keyword_in-plain (k ∷ ks) w h = ground (arith, keyword_in-plain ks w)

value_in-plain :
    (vs : List Value) (w : StringView) → values_plain vs ≡ true → is_plain (value_in vs w) ≡ true
unfolding value_in
value_in-plain [] w h = refl
value_in-plain (v ∷ vs) w h = ground (arith, value_in-plain vs w)

choice-plain :
    (k v other : TokenType)
    → is_plain k ≡ true
    → is_plain v ≡ true
    → is_plain other ≡ true
    → is_plain (if not (is_eof k) then k else if not (is_eof v) then v else other) ≡ true
choice-plain k v other hk hv ho = elim (Bool-cases (is_eof k)) [
  | inl e ↦ rw e (elim (Bool-cases (is_eof v)) [ inl f ↦ rw f ho | inr f ↦ rw f hv ])
  | inr e ↦ rw e hk
]

pub word_type-plain : (w : StringView) → is_plain (word_type w) ≡ true
unfolding word_type check_keyword check_values
word_type-plain w =
    choice-plain (check_keyword w) (check_values w) _ (keyword_in-plain keywords w refl)
      (value_in-plain values w refl) refl

Reads-skip_body_at :
    (s : List ℕ) (l : Lexer) → l.cur ≡ s → Reads (place l) (place (skip_body_at s l))
Reads-skip_body_at [] l e = Reads-refl (place l)
Reads-skip_body_at (c ∷ rest) l e =
    elim (Bool-cases (not (c == b'*') || not (char_at rest == b'/'))) [
      | inl more ↦ rw more (
          Reads-trans (Reads-step_over c rest l e)
            (Reads-skip_body_at rest (step_over c rest l) (cur-step_over c rest l)))
      | inr stop ↦ rw stop (Reads-refl (place l))
    ]

pub Reads-skip_body : (l : Lexer) → Reads (place l) (place (skip_body l))
unfolding skip_body
Reads-skip_body l = Reads-skip_body_at l.cur l refl

-- `*/` behind the body of a comment
read_closer :
    (l : Lexer)
    → Reads
        (place l)
        (place (lexer_advance (lexer_advance (record l { previous_token_type = block_comment }))))
read_closer l =
    let l' = record l { previous_token_type = block_comment } in
    Reads-trans (Reads-advance l') (Reads-advance (lexer_advance l'))

starts_word :
    (l : Lexer)
    → is_word_char (lexer_peek l) ≡ true
    → is_word_char (lexer_peek (start_token l)) ≡ true
unfolding lexer_peek start_token
starts_word l h = h

starts_number :
    (l : Lexer) → is_digit (lexer_peek l) ≡ true → is_digit (lexer_peek (start_token l)) ≡ true
unfolding lexer_peek start_token
starts_number l h = h

module _ {F : Type 0} {p : Place} where
  pub scan_word-Scanned :
      (l : Lexer)
      → is_word_char (lexer_peek l) ≡ true
      → Reads p (place l)
      → Yields (Scanned {F = F} p) (lexer_scan_word l)
  unfolding lexer_scan_word start_token
  scan_word-Scanned l h r =
      build_token-Scanned (advance_while is_word_char (start_token l)) _
        (Reads-Passes r (
          Passes-advance_while is_word_char (start_token l) (starts_word l h)
            (unfold is_alpha_numeric in refl)))
        (word_type-plain (
          create_with_len (advance_while is_word_char (start_token l)).token_start (
            distance (advance_while is_word_char (start_token l)).token_start
              (advance_while is_word_char (start_token l)).cur)))

  pub scan_string-Scanned :
      (l : Lexer) (quote : ℕ)
      → Passes p (place l)
      → Yields (Scanned {F = F} p) (lexer_scan_string l quote)
  unfolding lexer_scan_string
  scan_string-Scanned l quote h =
      let end = advance_while (λ c. not (c == quote)) l in
      let h' = Passes-Reads h (Reads-advance_while (λ c. not (c == quote)) l) in
      elim (Bool-cases (lexer_is_eof end)) [
        | inl eof ↦
            rw (eof, lexer_scan_string) (build_error_token-Scanned end unterminated_string h')
        | inr closed ↦
            rw (closed, lexer_scan_string)
              (build_token-Scanned (lexer_advance end) string (Passes-Reads h' (Reads-advance end))
                refl)
      ]

  pub scan_comment-Scanned :
      (l : Lexer) (multi_line : Bool)
      → Passes p (place l)
      → Yields (Scanned {F = F} p) (lexer_scan_comment l multi_line)
  unfolding lexer_scan_comment start_token lexer_build_token
  scan_comment-Scanned l false h =
      build_token-Scanned (advance_while (λ c. not (c == b'\n')) (start_token l)) line_comment
        (Passes-Reads h (Reads-advance_while (λ c. not (c == b'\n')) (start_token l))) refl
  scan_comment-Scanned l true h =
      let end = skip_body (start_token l) in
      let h' = Passes-Reads h (Reads-skip_body (start_token l)) in
      elim (Bool-cases (lexer_is_eof end)) [
        | inl eof ↦
            rw (eof, lexer_scan_comment) (build_error_token-Scanned end unterminated_comment h')
        | inr closed ↦
            rw (closed, lexer_scan_comment)
              (yields (record {
                reads = (Passes-Reads h' (read_closer end)).0;
                plain = refl;
                progress = λ _. (Passes-Reads h' (read_closer end)).1;
              }))
      ]

  number_token-Scanned :
      (libc : Libc F) (start : Lexer) {s : Scan (Literal F)}
      → Stops (Passes p) s
      → Yields (Scanned p) (ok (number_token libc start s))
  number_token-Scanned libc start (stops_got {a = text v} h) =
      yields (record { reads = h.0; plain = refl; progress = λ _. h.1 })
  number_token-Scanned libc start (stops_got {a = int n} h) =
      yields (record { reads = h.0; plain = refl; progress = λ _. h.1 })
  number_token-Scanned libc start (stops_got {a = double x} h) =
      yields (record { reads = h.0; plain = refl; progress = λ _. h.1 })
  number_token-Scanned libc start (stops_bad {msg = msg} {l = l} h) =
      build_error_token-Scanned l msg h

  pub scan_number-Scanned :
      (libc : Libc F) (l : Lexer)
      → is_digit (lexer_peek l) ≡ true
      → Reads p (place l)
      → Yields (Scanned p) (ok (lexer_scan_number libc l))
  unfolding lexer_scan_number start_token
  scan_number-Scanned libc l d r =
      number_token-Scanned libc l (scan_literal-Passes libc (start_token l) (starts_number l d) r)

  pub scan_number-Scanned_point :
      (libc : Libc F) (l : Lexer)
      → lexer_peek l ≡ b'.'
      → is_digit (lexer_peek_next l) ≡ true
      → Reads p (place l)
      → Yields (Scanned p) (ok (lexer_scan_number libc l))
  unfolding lexer_scan_number start_token lexer_peek lexer_peek_next
  scan_number-Scanned_point libc l e d r =
      number_token-Scanned libc l (scan_literal-Passes_point libc (start_token l) e d r)
