-- ===== src/Lexer/Run.antt =====
-- A client's loop over `snuk_lexer_next_token`, up to the end of the text.
use snuk.Prelude.{ℕ, zero, suc, List, [], ◌∷◌, Option, none, some, Outcome, ok, trap, true, false}
use snuk.Lexer.Token.{Token}
use snuk.Lexer.Cursor.{Lexer}
use snuk.Lexer.Words.{is_eof}
use snuk.Lexer.Numbers.{Libc}
use snuk.Lexer.Next.{snuk_lexer_next_token}

abbrev pub cons_to : {A : Type 0} → A → Option (Outcome (List A)) → Option (Outcome (List A))
cons_to a none = none
cons_to a (some (ok as')) = some (ok (a ∷ as'))
cons_to a (some (trap e)) = some (trap e)

module _ {F : Type 0} (libc : Libc F) where
  -- `none` where the rounds ran out.
  unfoldable pub tokens : ℕ → Lexer → Option (Outcome (List (Token F)))
  tokens zero l = none
  tokens (suc rounds) l = elim (snuk_lexer_next_token libc l) [
    | trap fault ↦ some (trap fault)
    | ok (token, l') ↦ elim (is_eof token.type) [
      | true ↦ some (ok (token ∷ []))
      | false ↦ cons_to token (tokens rounds l')
    ]
  ]
