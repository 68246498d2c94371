-- ===== src/Lexer/Progress/Finish.antt =====
-- The rounds of the loop over the tokens of a text.
use snuk.Prelude.{
  ℕ, zero, suc, ◌+◌, ◌*◌, ◌<◌, ◌≡◌, ◌≢◌, refl, false, List, length, arith, if◌then◌else◌,
  Bool-cases, inl, inr, ◌⊎◌, Option, Option-cases, none, some, Outcome, Outcome-cases, ok, trap,
}
use snuk.Lexer.Token.{TokenType, vsemicolon, ends_item, Token}
use snuk.Lexer.Cursor.{Lexer, lexer_init}
use snuk.Lexer.Words.{is_eof}
use snuk.Lexer.Numbers.{Libc}
use snuk.Lexer.Next.{snuk_lexer_next_token}
use snuk.Lexer.Run.{cons_to, tokens}
use snuk.Lexer.Place.{Reads-length}
use snuk.Lexer.Yields.{Yields-ok}
use snuk.Lexer.Progress.Whole.{NextToken, snuk_lexer_next_token-NextToken}

-- Two for each character left, and one where a virtual semicolon may follow.
abbrev pub rank : Lexer → ℕ
rank l = length l.cur * 2 + (if ends_item l.previous_token_type then 1 else 0)

is_vsemicolon : (t : TokenType) → (t ≡ vsemicolon) ⊎ (t ≢ vsemicolon)
is_vsemicolon vsemicolon = inl refl
is_vsemicolon t = inr (λ e. cc)

ends_item-vsemicolon : ends_item vsemicolon ≡ false
unfolding ends_item
ends_item-vsemicolon = refl

rank-falls :
    {F : Type 0} (l l' : Lexer) (t : Token F)
    → NextToken l t l'
    → is_eof t.type ≡ false
    → rank l' < rank l
rank-falls l l' t n e = elim (is_vsemicolon t.type) [
  | inl semicolon ↦
      rw ((n.semicolon_iff.0 semicolon).ends, n.semicolon_is_last semicolon, ends_item-vsemicolon)
        (omega (arith, Reads-length n.reads))
  | inr other ↦ ground (arith, n.progress other e)
]

cons_to-ne-none :
    {A : Type 0} (a : A) (r : Option (Outcome (List A))) → r ≢ none → cons_to a r ≢ none
cons_to-ne-none a none h e = h refl
cons_to-ne-none a (some (ok as')) h e = cc
cons_to-ne-none a (some (trap f)) h e = cc

rank-init : (src : List ℕ) → rank (lexer_init src) < length src * 2 + 1
unfolding lexer_init ends_item
rank-init src = omega arith

module _ {F : Type 0} (libc : Libc F) where
  -- From any state of the lexer the loop over its tokens ends, within as many rounds as the rank of
  -- the state says: with a last token or with a fault, and never without an end.
  pub tokens-ne-none : (rounds : ℕ) (l : Lexer) → rank l < rounds → tokens libc rounds l ≢ none
  unfolding tokens
  tokens-ne-none zero l h = absurd (omega arith)
  tokens-ne-none (suc rounds) l h = elim (Outcome-cases (snuk_lexer_next_token libc l)) [
    | inr (fault, e) ↦ rw (e, tokens) (λ x. cc)
    | inl ((t, l'), e) ↦ elim (Bool-cases (is_eof t.type)) [
      | inl last ↦ rw (e, last, tokens) (λ x. cc)
      | inr more ↦
          rw (e, more, tokens)
            (cons_to-ne-none t (tokens libc rounds l') (
              tokens-ne-none rounds l' (
                omega (
                  arith,
                  rank-falls l l' t (Yields-ok (snuk_lexer_next_token-NextToken libc l) e) more,
                ))))
    ]
  ]

  -- Reading a text from its start comes to an end within twice its length and one more rounds.
  pub tokens_total :
      (src : List ℕ)
      → (r : Outcome (List (Token F))) × (tokens libc (length src * 2 + 1) (lexer_init src)
          ≡ some r)
  tokens_total src = elim (Option-cases (tokens libc (length src * 2 + 1) (lexer_init src))) [
    | inl ran_out ↦
        absurd (tokens-ne-none (length src * 2 + 1) (lexer_init src) (rank-init src) ran_out)
    | inr found ↦ found
  ]
