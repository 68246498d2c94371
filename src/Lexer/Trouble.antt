-- ===== src/Lexer/Trouble.antt =====
-- Stray closing brackets, and comments that are never closed.
use mathlib.Core.Path.{subst}
use snuk.Prelude.{
  ◌∙◌, if◌then◌else◌, ℕ, ◌≡◌, refl, sym, ap, Bool, true, false, not, ◌&&◌, ◌||◌, List, [], ◌∷◌,
  none, Outcome, ok, trap, scope_mismatch, wild, ◌==◌, arith,
}
use snuk.Text.{StringView}
use snuk.Lexer.Depth.{ScopeDepth}
use snuk.Lexer.Token.{ends_item, vsemicolon, rbrace, eof, unterminated_comment, Token}
use snuk.Chars.{char_in_string, is_white_space}
use snuk.Lexer.Cursor.{
  Lexer, char_at, step_over, lexer_is_eof, lexer_peek, lexer_peek_next, lexer_advance,
  advance_while, start_token, lexer_build_token, lexer_build_error_token, lexer_init,
}
use snuk.Lexer.Numbers.{Libc}
use snuk.Lexer.Comments.{skip_body_at, skip_body, lexer_scan_comment}
use snuk.Lexer.Next.{
  inserts_vsemicolon, string_literal, at_comment, newlines_ahead, scan_comment_here, scan_token,
  after_blanks, snuk_lexer_next_token,
}
use snuk.Lexer.Place.{cur-step_over}
use snuk.Lexer.Unfold.{next_token}

module _ {F : Type 0} (libc : Libc F) where
  -- The token is a closing brace, no scope is left, and the next call is a fault.
  abbrev Strays : Lexer → Type 0
  Strays l =
      (t : Token F) × (l' : Lexer) × (snuk_lexer_next_token libc l ≡ ok (t, l'))
      × (t.type ≡ rbrace)
      × (l'.sd ≡ [])
      × (snuk_lexer_next_token libc l' ≡ trap wild)

  abbrev outermost : ScopeDepth
  outermost = record { paren = 0; bracket = 0 }

  stray_at :
      (l : Lexer) (rest : List ℕ)
      → ends_item l.previous_token_type ≡ false
      → Strays (record l { cur = b'}' ∷ b'\n' ∷ rest; sd = outermost ∷ [] })
  unfolding next_token
  stray_at l rest ends =
      let l1 : Lexer = start_token (record l { cur = b'}' ∷ b'\n' ∷ rest; sd = outermost ∷ [] }) in
      (
        _,
        _,
        ap (λ b. if b then lexer_build_token l1 vsemicolon else after_blanks libc l1) ends ∙ refl,
        refl,
        refl,
        refl,
      )

  -- Where only the outermost scope is left, with no parenthesis or bracket open in it, and the token before
  -- ends no item, a closing brace at the end of a line is a token that removes this scope, and the next
  -- call reads the depths of a scope that is not there.
  pub stray_brace :
      (l : Lexer) (d : ScopeDepth) (rest : List ℕ)
      → l.cur ≡ b'}' ∷ b'\n' ∷ rest
      → l.sd ≡ d ∷ []
      → d.paren ≡ 0
      → d.bracket ≡ 0
      → ends_item l.previous_token_type ≡ false
      → (t : Token F) × (l' : Lexer) × (snuk_lexer_next_token libc l ≡ ok (t, l'))
        × (t.type ≡ rbrace)
        × (l'.sd ≡ [])
        × (snuk_lexer_next_token libc l' ≡ trap wild)
  stray_brace l d rest e scope p b ends =
      let open_one : d ≡ outermost = λ i. record { paren = p i; bracket = b i } in
      let depths : l.sd ≡ outermost ∷ [] = scope ∙ ap (λ d. d ∷ []) open_one in
      let same : l ≡ record l { cur = b'}' ∷ b'\n' ∷ rest; sd = outermost ∷ [] } =
        λ i. record l { cur = e i; sd = depths i } in
      subst Strays (sym same) (stray_at l rest ends)

  -- A closing parenthesis or bracket with none open stops a debug build.
  pub stray_closers :
      (rest : List ℕ)
      → (snuk_lexer_next_token libc (lexer_init (b')' ∷ rest)) ≡ trap scope_mismatch)
        × (snuk_lexer_next_token libc (lexer_init (b']' ∷ rest)) ≡ trap scope_mismatch)
  unfolding next_token
  stray_closers rest = (refl, refl)

-- `*/` stands somewhere in the text.
abbrev pub has_closer : List ℕ → Bool
has_closer [] = false
has_closer (c ∷ s) = (c == b'*' && char_at s == b'/') || has_closer s

skip_body_at-open :
    (s : List ℕ) (l : Lexer) → has_closer s ≡ false → l.cur ≡ s → (skip_body_at s l).cur ≡ []
skip_body_at-open [] l h e = e
skip_body_at-open (c ∷ s) l h e =
    let more : (not (c == b'*') || not (char_at s == b'/')) ≡ true = ground arith in
    rw more (skip_body_at-open s (step_over c s l) (ground arith) (cur-step_over c s l))

at_end : (l : Lexer) → l.cur ≡ [] → l ≡ record l { cur = [] }
at_end l e = λ i. record l { cur = e i }

module _ {F : Type 0} (libc : Libc F) where
  -- Behind the last character the token is the end of the text.
  record EndToken (leading : StringView) (r : Outcome (Token F × Lexer)) : Type 0 where
    token : Token F
    state : Lexer
    is : r ≡ ok (token, state)
    is_end : token.type ≡ eof
    no_error : token.err_msg ≡ none
    all_read : state.cur ≡ []
    comment : token.leading_comment ≡ leading

  scan_token-end :
      (leading : StringView) (l : Lexer)
      → EndToken leading (scan_token libc leading (record l { cur = [] }))
  unfolding next_token
  scan_token-end leading l = record {
    token = _;
    state = _;
    is = refl;
    is_end = refl;
    no_error = refl;
    all_read = refl;
    comment = refl;
  }

  error_of : Lexer → Token F × Lexer
  error_of end = lexer_build_error_token end unterminated_comment

  -- The scan of the body is at the end of the text.
  scan_comment-open :
      (l : Lexer)
      → (skip_body (start_token l)).cur ≡ []
      → lexer_scan_comment {F = F} l true ≡ ok (error_of (skip_body (start_token l)))
  unfolding error_of lexer_scan_comment lexer_is_eof
  scan_comment-open l e = rw (e, lexer_scan_comment) refl

  error_of-at_end : (end : Lexer) → end.cur ≡ [] → (error_of end).1.cur ≡ []
  unfolding error_of lexer_build_error_token
  error_of-at_end end e = e

  skip_body-open :
      (l : Lexer) (body : List ℕ)
      → has_closer body ≡ false
      → l.cur ≡ body
      → (skip_body (start_token l)).cur ≡ []
  unfolding skip_body start_token
  skip_body-open l body h e = rw (sym e) at (skip_body_at-open body (start_token l) h e)

  two_behind :
      (l : Lexer) (c d : ℕ) (body : List ℕ)
      → l.cur ≡ c ∷ d ∷ body
      → (lexer_advance (lexer_advance l)).cur ≡ body
  unfolding lexer_advance
  two_behind l c d body e = ground arith

  one_behind :
      (l : Lexer) (c d : ℕ) (body : List ℕ)
      → l.cur ≡ c ∷ d ∷ body
      → (lexer_advance l).cur ≡ d ∷ body
  unfolding lexer_advance
  one_behind l c d body e = ground arith

  scan_comment_here-open :
      (l : Lexer) (body : List ℕ)
      → has_closer body ≡ false
      → l.cur ≡ b'/' ∷ b'*' ∷ body
      → scan_comment_here {F = F} l
        ≡ ok (error_of (skip_body (start_token (lexer_advance (lexer_advance l)))))
  unfolding scan_comment_here lexer_peek
  scan_comment_here-open l body h e =
      let star : (char_at (lexer_advance l).cur == b'*') ≡ true =
        ap (λ s. char_at s == b'*') (one_behind l b'/' b'*' body e) in
      rw star (
        scan_comment-open (lexer_advance (lexer_advance l))
          (skip_body-open (lexer_advance (lexer_advance l)) body h (two_behind l b'/' b'*' body e)))

  at_comment-open : (l : Lexer) (body : List ℕ) → l.cur ≡ b'/' ∷ b'*' ∷ body → at_comment l ≡ true
  unfolding at_comment lexer_peek lexer_peek_next char_in_string
  at_comment-open l body e = ground arith

  after_blanks-open :
      (l : Lexer) (body : List ℕ)
      → has_closer body ≡ false
      → l.cur ≡ b'/' ∷ b'*' ∷ body
      → (v : StringView) × EndToken v (after_blanks libc l)
  unfolding after_blanks newlines_ahead
  after_blanks-open l body h e =
      let l2 = lexer_advance (lexer_advance l) in
      let end = skip_body (start_token l2) in
      let at_eof = error_of-at_end end (skip_body-open l2 body h (two_behind l b'/' b'*' body e)) in
      let v = string_literal (error_of end).0.literal in
      (
        v,
        rw (at_comment-open l body e, scan_comment_here-open l body h e, at_eof, after_blanks)
            (rw (at_end (error_of end).1 at_eof) (scan_token-end v (error_of end).1)),
      )

  -- A block comment that begins where the lexer stands when it is asked for a token, and that is never
  -- closed, is no error: the lexer takes the rest of the text for a comment in front of its end.
  pub unclosed_comment :
      (l : Lexer) (body : List ℕ)
      → l.cur ≡ b'/' ∷ b'*' ∷ body
      → has_closer body ≡ false
      → (t : Token F) × (l' : Lexer) × (snuk_lexer_next_token libc l ≡ ok (t, l'))
        × (t.type ≡ eof)
        × (t.err_msg ≡ none)
        × (l'.cur ≡ [])
  unfolding snuk_lexer_next_token inserts_vsemicolon advance_while start_token lexer_peek
      char_in_string is_white_space
  unclosed_comment l body e h =
      let l0 : Lexer = record l { cur = b'/' ∷ b'*' ∷ body } in
      let (v, found) = after_blanks-open (start_token l0) body h refl in
      let same : l ≡ l0 = λ i. record l { cur = e i } in
      (
        found.token,
        found.state,
        ap (snuk_lexer_next_token libc) same ∙ found.is,
        found.is_end,
        found.no_error,
        found.all_read,
      )
