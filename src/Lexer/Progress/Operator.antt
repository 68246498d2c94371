-- ===== src/Lexer/Progress/Operator.antt =====
-- The switch over the consumed character, and `lexer_next_token`.
use snuk.Prelude.{ℕ, ◌≡◌, ◌≢◌, refl, true, ◌&&◌, arith, ◌==◌, Bool-cases, inl, inr, Outcome}
use snuk.Chars.{is_digit}
use snuk.Lexer.Token.{TokenType, eof, Token}
use snuk.Lexer.Cursor.{
  Lexer, depth_after, lexer_peek, lexer_peek_next, lexer_advance, lexer_build_token, start_token,
}
use snuk.Lexer.Words.{is_word_char}
use snuk.Lexer.Numbers.{Libc}
use snuk.Lexer.Place.{
  Place, place, Reads, Reads-trans, Reads-advance, Reads-Passes, Passes, Passes-advance,
}
use snuk.Lexer.Punctuation.{angle, single_case, operator_case, punctuation}
use snuk.Lexer.Next.{lexer_next_token}
use snuk.Lexer.Yields.{
  is_plain, Yields, yields, Scanned, Yields-if, build_token-Scanned, build_error_token-Scanned,
  if_match-Scanned,
}
use snuk.Lexer.Progress.Piece.{
  scan_word-Scanned, scan_string-Scanned, scan_comment-Scanned, scan_number-Scanned,
  scan_number-Scanned_point,
}

module _ {F : Type 0} {p : Place} where
  angle-Scanned :
      (c : ℕ) (t1 t2 t3 t4 : TokenType) (l : Lexer)
      → Passes p (place l)
      → is_plain t1 ≡ true
      → is_plain t2 ≡ true
      → is_plain t3 ≡ true
      → is_plain t4 ≡ true
      → Yields (Scanned {F = F} p) (angle c t1 t2 t3 t4 l)
  unfolding angle
  angle-Scanned c t1 t2 t3 t4 l h h1 h2 h3 h4 =
      if_match-Scanned c l _ _ h
        (λ l1 k1.
          if_match-Scanned b'=' l1 _ _ k1 (λ l2 k2. build_token-Scanned l2 t3 k2 h3)
            (λ l2 k2. build_token-Scanned l2 t2 k2 h2))
        λ l1 k1.
          if_match-Scanned b'=' l1 _ _ k1 (λ l2 k2. build_token-Scanned l2 t4 k2 h4)
            (λ l2 k2. build_token-Scanned l2 t1 k2 h1)

  operator_case-Scanned :
      (c : ℕ) (l : Lexer) → Passes p (place l) → Yields (Scanned {F = F} p) (operator_case c l)
  unfolding operator_case
  operator_case-Scanned c l h =
      search
        (
          Yields-if, if_match-Scanned, build_token-Scanned, angle-Scanned, scan_comment-Scanned,
          scan_string-Scanned, build_error_token-Scanned,
        )
        depth 40

  build_eof-Scanned :
      (l : Lexer) → Reads p (place l) → Yields (Scanned {F = F} p) (lexer_build_token l eof)
  unfolding lexer_build_token depth_after
  build_eof-Scanned l r = yields (record { reads = r; plain = refl; progress = λ e. cc })

  -- At the end of the text nothing is consumed.
  single_case-Scanned :
      (c : ℕ) (l : Lexer) (other : Outcome (Token F × Lexer))
      → Reads p (place l)
      → (c ≢ 0 → Passes p (place l))
      → (c ≢ 0 → Yields (Scanned p) other)
      → Yields (Scanned p) (single_case c l other)
  unfolding single_case
  single_case-Scanned c l other r h k = elim (Bool-cases (c == 0)) [
    | inl end ↦ rw (end, single_case) (build_eof-Scanned l r)
    | inr more ↦
        let ne : c ≢ 0 = λ e. ground arith in
        rw (more, single_case) (search (Yields-if, build_token-Scanned, h ne, k ne) depth 40)
  ]

  punctuation-Scanned :
      (l : Lexer)
      → Reads p (place l)
      → Yields (Scanned {F = F} p) (punctuation (lexer_peek l) (lexer_advance l))
  unfolding punctuation
  punctuation-Scanned l r =
      let moved : lexer_peek l ≢ 0 → Passes p (place (lexer_advance l)) =
        λ ne. Reads-Passes r (Passes-advance l ne) in
      single_case-Scanned (lexer_peek l) (lexer_advance l) _ (Reads-trans r (Reads-advance l)) moved
        λ ne. operator_case-Scanned (lexer_peek l) (lexer_advance l) (moved ne)

  pub lexer_next_token-Scanned :
      (libc : Libc F) (l : Lexer) → Reads p (place l) → Yields (Scanned p) (lexer_next_token libc l)
  unfolding lexer_next_token start_token lexer_peek lexer_peek_next
  lexer_next_token-Scanned libc l0 r =
      let l = start_token l0 in
      elim (Bool-cases (is_digit (lexer_peek l))) [
        | inl digit ↦ rw (digit, lexer_next_token) (scan_number-Scanned libc l digit r)
        | inr other ↦ elim (Bool-cases (lexer_peek l == b'.' && is_digit (lexer_peek_next l))) [
          | inl point ↦
              rw (other, point, lexer_next_token)
                (scan_number-Scanned_point libc l (ground arith) (ground arith) r)
          | inr no_point ↦ elim (Bool-cases (is_word_char (lexer_peek l))) [
            | inl word ↦ rw (other, no_point, word, lexer_next_token) (scan_word-Scanned l word r)
            | inr no_word ↦
                rw (other, no_point, no_word, lexer_next_token) (punctuation-Scanned l r)
          ]
        ]
      ]
