-- ===== src/Lexer/Yields.antt =====
-- What holds of the token and of the state in which a scan ends, unless it traps.
use snuk.Prelude.{
  ℕ, ◌<◌, ◌≡◌, refl, ap, Bool, true, false, length, arith, if◌then◌else◌, Bool-cases, inl, inr,
  Fault, Outcome, ok, trap, ◌>>=◌, ◌==◌,
}
use mathlib.Core.Path.{subst₂}
use snuk.Lexer.Token.{TokenType, vsemicolon, Message, Token}
use snuk.Lexer.Cursor.{
  Lexer, depth_after, token_of, lexer_match, lexer_peek, lexer_build_token, lexer_build_error_token,
}
use snuk.Lexer.Words.{is_eof}
use snuk.Lexer.Place.{
  Place, place, Reads, Reads-trans, Reads-advance, Reads-length, Passes, Passes-Reads,
}
use snuk.Lexer.Punctuation.{if_match}

abbrev pub is_plain : TokenType → Bool
is_plain vsemicolon = false
is_plain _ = true

pub data Yields {F : Type 0} (P : Token F → Lexer → Type 0)
    : Outcome (Token F × Lexer) → Type 0 where
  yields : {t : Token F} {l : Lexer} → P t l → Yields P (ok (t, l))
  faults : {e : Fault} → Yields P (trap e)

-- A token that a scan from `p` gives: it is no virtual semicolon, the cursor has not moved back,
-- and it has moved on unless the text has ended.
pub record Scanned {F : Type 0} (p : Place) (t : Token F) (l : Lexer) : Type 0 where
  pub reads : Reads p (place l)
  pub plain : is_plain t.type ≡ true
  pub progress : is_eof t.type ≡ false → length l.cur < length p.cur

module _ {F : Type 0} {P : Token F → Lexer → Type 0} where
  pub Yields-ok :
      {m : Outcome (Token F × Lexer)} {t : Token F} {l : Lexer} → Yields P m → m ≡ ok (t, l) → P t l
  Yields-ok (yields {t = t'} {l = l'} h) e = subst₂ P (ap first e) (ap second e) h
    where
      first : Outcome (Token F × Lexer) → Token F
      first (ok (t, l)) = t
      first (trap _) = t'

      second : Outcome (Token F × Lexer) → Lexer
      second (ok (t, l)) = l
      second (trap _) = l'
  Yields-ok faults e = cc

  pub Yields-bind :
      {A : Type 0} (m : Outcome A) (f : A → Outcome (Token F × Lexer))
      → ((a : A) → Yields P (f a))
      → Yields P (m >>= f)
  Yields-bind (ok a) f h = h a
  Yields-bind (trap e) f h = faults

  pub Yields-if :
      (b : Bool) {x y : Outcome (Token F × Lexer)}
      → Yields P x
      → Yields P y
      → Yields P (if b then x else y)
  Yields-if true h k = h
  Yields-if false h k = k

  -- As `Yields-if`, where the branches use the test.
  pub Yields-test :
      (b : Bool) {x y : Outcome (Token F × Lexer)}
      → (b ≡ true → Yields P x)
      → (b ≡ false → Yields P y)
      → Yields P (if b then x else y)
  Yields-test true h k = h refl
  Yields-test false h k = k refl

  pub Yields-then :
      {Q : Token F → Lexer → Type 0} {m : Outcome (Token F × Lexer)}
      (f : Token F × Lexer → Outcome (Token F × Lexer))
      → Yields Q m
      → ((t : Token F) (l : Lexer) → Q t l → Yields P (f (t, l)))
      → Yields P (m >>= f)
  Yields-then f (yields {t = t} {l = l} h) k = k t l h
  Yields-then f faults k = faults

  -- The rule of consequence.
  pub Yields-imp :
      {Q : Token F → Lexer → Type 0} {m : Outcome (Token F × Lexer)}
      → Yields Q m
      → ((t : Token F) (l : Lexer) → Q t l → P t l)
      → Yields P m
  Yields-imp (yields {t = t} {l = l} h) k = yields (k t l h)
  Yields-imp faults k = faults

module _ {F : Type 0} {p : Place} where
  pub build_token-Scanned :
      (l : Lexer) (type : TokenType)
      → Passes p (place l)
      → is_plain type ≡ true
      → Yields (Scanned {F = F} p) (lexer_build_token l type)
  unfolding lexer_build_token
  build_token-Scanned l type h e =
      Yields-bind (depth_after type l.sd)
        (λ sd. ok (token_of l type, record l { previous_token_type = type; sd = sd }))
        (λ sd. yields (record { reads = h.0; plain = e; progress = λ _. h.1 }))

  pub Scanned-Reads :
      {t : Token F} {l : Lexer} (l' : Lexer)
      → Scanned p t l
      → Reads (place l) (place l')
      → Scanned p t l'
  Scanned-Reads l' s r = record {
    reads = Reads-trans s.reads r;
    plain = s.plain;
    progress = λ e. omega (arith, s.progress e, Reads-length r);
  }

  pub build_error_token-Scanned :
      (l : Lexer) (msg : Message)
      → Passes p (place l)
      → Yields (Scanned {F = F} p) (ok (lexer_build_error_token l msg))
  unfolding lexer_build_error_token
  build_error_token-Scanned l msg h =
      yields (record { reads = h.0; plain = refl; progress = λ _. h.1 })

  pub if_match-Scanned :
      (c : ℕ) (l : Lexer) (f g : Lexer → Outcome (Token F × Lexer))
      → Passes p (place l)
      → ((l' : Lexer) → Passes p (place l') → Yields (Scanned p) (f l'))
      → ((l' : Lexer) → Passes p (place l') → Yields (Scanned p) (g l'))
      → Yields (Scanned p) (if_match c l f g)
  unfolding if_match lexer_match
  if_match-Scanned c l f g h hf hg = elim (Bool-cases (lexer_peek l == c)) [
    | inl same ↦ rw (same, if_match) (hf _ (Passes-Reads h (Reads-advance l)))
    | inr other ↦ rw (other, if_match) (hg l h)
  ]
