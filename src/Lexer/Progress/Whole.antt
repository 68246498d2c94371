-- ===== src/Lexer/Progress/Whole.antt =====
-- `snuk_lexer_next_token`: the condition for a virtual semicolon, and how far a call moves on.
use snuk.Prelude.{
  ◌<◌, ◌≡◌, ◌≢◌, refl, ap, Bool, true, false, not, [], ◌∷◌, length, arith, ltb, if◌then◌else◌,
  Bool-cases, inl, inr, Outcome-cases, ok, ◌>>=◌, ◌↔◌,
}
use snuk.Chars.{is_white_space}
use snuk.Text.{StringView}
use snuk.Lexer.Token.{TokenType, vsemicolon, ends_item, Token}
use snuk.Lexer.Depth.{Depths, scope_depth_zero}
use snuk.Lexer.Cursor.{
  Lexer, char_at, lexer_peek, lexer_advance, lexer_build_token, start_token, advance_while, no_text,
  depth_after,
}
use snuk.Lexer.Words.{is_eof}
use snuk.Lexer.Numbers.{Libc}
use snuk.Lexer.Next.{
  is_ignored, is_candidate, lexer_should_insert_vsemicolon, inserts_vsemicolon, at_comment,
  newlines_ahead, scan_comment_here, add_trailing, scan_token, after_blanks, snuk_lexer_next_token,
}
use snuk.Lexer.Place.{
  Place, place, Reads, Reads-refl, Reads-trans, Reads-advance, Reads-advance_while, Reads-Passes,
  Passes-Reads, Passes-advance, Keeps-advance_while,
}
use snuk.Lexer.Yields.{
  is_plain, Yields, yields, faults, Scanned, Scanned-Reads, Yields-then, Yields-imp, Yields-ok,
}
use snuk.Lexer.Progress.Piece.{scan_comment-Scanned}
use snuk.Lexer.Progress.Operator.{lexer_next_token-Scanned}

at_comment-ne-zero : (l : Lexer) → at_comment l ≡ true → lexer_peek l ≢ 0
unfolding at_comment
at_comment-ne-zero l h e = ground arith

module _ {F : Type 0} {p : Place} where
  scan_comment_here-Scanned :
      (l : Lexer)
      → at_comment l ≡ true
      → Reads p (place l)
      → Yields (Scanned {F = F} p) (scan_comment_here l)
  unfolding scan_comment_here
  scan_comment_here-Scanned l h r = scan_comment-Scanned (lexer_advance (lexer_advance l)) _ (
      Passes-Reads (Reads-Passes r (Passes-advance l (at_comment-ne-zero l h)))
        (Reads-advance (lexer_advance l)))

module _ {F : Type 0} {p : Place} where
  add_trailing-Scanned :
      (leading : StringView) (token : Token F) (l : Lexer)
      → Scanned p token l
      → Yields (Scanned p) (add_trailing leading token l)
  unfolding add_trailing
  add_trailing-Scanned leading token l0 s =
      let l = advance_while is_ignored l0 in
      let s' = Scanned-Reads l s (Reads-advance_while is_ignored l0) in
      elim (Bool-cases (at_comment l)) [
        | inl comment ↦
            rw (comment, add_trailing)
              (Yields-then _ (scan_comment_here-Scanned l comment (Reads-refl (place l))) λ t l' c.
                yields (record {
                  reads = Reads-trans s'.reads c.reads;
                  plain = s'.plain;
                  progress = (Scanned-Reads l' s' c.reads).progress;
                }))
        | inr other ↦
            rw (other, add_trailing)
              (yields (record { reads = s'.reads; plain = s'.plain; progress = s'.progress }))
      ]

  scan_token-Scanned :
      (libc : Libc F) (leading : StringView) (l : Lexer)
      → Reads p (place l)
      → Yields (Scanned p) (scan_token libc leading l)
  unfolding scan_token
  scan_token-Scanned libc leading l r =
      Yields-then _
        (lexer_next_token-Scanned libc (advance_while is_white_space l)
          (Reads-trans r (Reads-advance_while is_white_space l)))
        (λ t l' s. add_trailing-Scanned leading t l' s)

  after_blanks-Scanned :
      (libc : Libc F) (l : Lexer) → Reads p (place l) → Yields (Scanned p) (after_blanks libc l)
  unfolding after_blanks
  after_blanks-Scanned libc l r = elim (Bool-cases (at_comment l)) [
    | inl comment ↦
        rw (comment, after_blanks)
          (Yields-then _ (scan_comment_here-Scanned l comment r) λ t l' s.
            elim (Bool-cases (ltb 1 (newlines_ahead l'.cur))) [
              | inl alone ↦ rw alone (yields s)
              | inr leading ↦ rw leading (scan_token-Scanned libc _ l' s.reads)
            ])
    | inr other ↦ rw (other, after_blanks) (scan_token-Scanned libc no_text l r)
  ]

-- The outermost open brace has no open parenthesis and no open bracket.
abbrev pub IsClosed : Depths → Type 0
IsClosed [] = ⊥
IsClosed (d ∷ sd) = (d.paren ≡ 0) × (d.bracket ≡ 0)

-- The condition for a virtual semicolon: behind the blanks of the line the text has a newline or a
-- closing brace, nothing is open, and the previous token can end an item.
pub record Inserts (l : Lexer) : Type 0 where
  pub candidate : is_candidate (lexer_peek (advance_while is_ignored l)) ≡ true
  pub closed : IsClosed l.sd
  pub ends : ends_item l.previous_token_type ≡ true

should_insert_iff :
    (sd : Depths) (previous : TokenType) (b : Bool)
    → (scope_depth_zero sd >>= λ closed. ok (if not closed then false else ends_item previous))
      ≡ ok b
    → (b ≡ true) ↔ (IsClosed sd × (ends_item previous ≡ true))
unfolding scope_depth_zero
should_insert_iff [] previous b h = cc
should_insert_iff (d ∷ sd) previous b h = ground arith

Reads-start : (l : Lexer) → Reads (place l) (place (start_token (advance_while is_ignored l)))
unfolding start_token
Reads-start l = Reads-advance_while is_ignored l

vsemicolon_iff :
    (l : Lexer) (b : Bool)
    → inserts_vsemicolon (start_token (advance_while is_ignored l)) ≡ ok b
    → (b ≡ true) ↔ Inserts l
unfolding inserts_vsemicolon lexer_should_insert_vsemicolon start_token lexer_peek
vsemicolon_iff l b h =
    let m = advance_while is_ignored l in
    let k = Keeps-advance_while is_ignored l in
    elim (Bool-cases (is_candidate (char_at m.cur))) [
      | inl e ↦
          let iff =
            rw (k.depths, k.previous) at
              (should_insert_iff m.sd m.previous_token_type b (rw e at h)) in
          (
            λ t. record { candidate = e; closed = (iff.0 t).0; ends = (iff.0 t).1 },
            λ i. iff.1 (i.closed, i.ends),
          )
      | inr e ↦ (λ t. cc (rw e at h), λ i. cc (i.candidate))
    ]

-- What `snuk_lexer_next_token` leaves, in either case.
pub record NextToken {F : Type 0} (l : Lexer) (t : Token F) (l' : Lexer) : Type 0 where
  pub reads : Reads (place l) (place l')
  pub semicolon_iff : (t.type ≡ vsemicolon) ↔ Inserts l
  pub semicolon_is_last : t.type ≡ vsemicolon → l'.previous_token_type ≡ vsemicolon
  pub progress : t.type ≢ vsemicolon → is_eof t.type ≡ false → length l'.cur < length l.cur

is_plain-ne : (t : TokenType) → is_plain t ≡ true → t ≢ vsemicolon
is_plain-ne t h e = cc (ap is_plain e)

semicolon-NextToken :
    {F : Type 0} (l m : Lexer)
    → Reads (place l) (place m)
    → Inserts l
    → Yields (NextToken {F = F} l) (lexer_build_token m vsemicolon)
unfolding lexer_build_token depth_after
semicolon-NextToken l m r i = yields (record {
  reads = r;
  semicolon_iff = (λ _. i, λ _. refl);
  semicolon_is_last = λ _. refl;
  progress = λ ne _. absurd (ne refl);
})

other-NextToken :
    {F : Type 0} (l : Lexer) (t : Token F) (l' : Lexer)
    → (Inserts l → false ≡ true)
    → Scanned (place l) t l'
    → NextToken l t l'
other-NextToken l t l' no_semicolon s = record {
  reads = s.reads;
  semicolon_iff = (λ e. absurd (is_plain-ne t.type s.plain e), λ i. cc (no_semicolon i));
  semicolon_is_last = λ e. absurd (is_plain-ne t.type s.plain e);
  progress = λ _. s.progress;
}

module _ {F : Type 0} (libc : Libc F) where
  pub snuk_lexer_next_token-NextToken :
      (l : Lexer) → Yields (NextToken l) (snuk_lexer_next_token libc l)
  unfolding snuk_lexer_next_token
  snuk_lexer_next_token-NextToken l =
      let m = start_token (advance_while is_ignored l) in
      elim (Outcome-cases (inserts_vsemicolon m)) [
        | inl (true, e) ↦
            rw (e, snuk_lexer_next_token)
              (semicolon-NextToken l m (Reads-start l) ((vsemicolon_iff l true e).0 refl))
        | inl (false, e) ↦
            rw (e, snuk_lexer_next_token)
              (Yields-imp
                (after_blanks-Scanned libc (advance_while is_white_space m)
                  (Reads-trans (Reads-start l) (Reads-advance_while is_white_space m)))
                (λ t l' s. other-NextToken l t l' (vsemicolon_iff l false e).1 s))
        | inr (fault, e) ↦ rw (e, snuk_lexer_next_token) faults
      ]

  -- A token is a virtual semicolon exactly when the condition for one holds before it.
  pub semicolon_exact :
      (l l' : Lexer) (t : Token F)
      → snuk_lexer_next_token libc l ≡ ok (t, l')
      → (t.type ≡ vsemicolon) ↔ Inserts l
  semicolon_exact l l' t e = (Yields-ok (snuk_lexer_next_token-NextToken l) e).semicolon_iff
