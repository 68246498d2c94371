-- ===== src/Lexer/Progress/Number.antt =====
-- Words, numbers, strings and comments.
use snuk.Prelude.{
  ℕ, ◌≡◌, ◌≢◌, refl, ap, Bool, true, false, arith, ◌==◌, if◌then◌else◌, Bool-cases, inl, inr, drop,
  Option-cases, codes,
}
use snuk.Chars.{char_in_string, is_alpha, is_digit, is_octal_digit}
use snuk.Lexer.Token.{Message}
use snuk.Lexer.Cursor.{Lexer, lexer_peek, lexer_peek_next, lexer_advance}
use snuk.Lexer.Numbers.{
  Libc, Scan, got, bad, prefixed_digits, scan_base, scan_fraction, skip_sign, scan_exponent, ◌>>=◌,
  binary_value, convert, scan_literal,
}
use snuk.Lexer.Place.{
  Place, place, Reads, Reads-refl, Reads-trans, Reads-advance, Reads-advance_while, Passes,
  Passes-Reads, Reads-Passes, Passes-advance, Passes-advance_while, advance_while_stop,
}

-- The place in which a part of the scan of a number ends.
pub data Stops {A : Type 0} (P : Place → Type 0) : Scan A → Type 0 where
  stops_got : {a : A} {l : Lexer} → P (place l) → Stops P (got a l)
  stops_bad : {msg : Message} {l : Lexer} → P (place l) → Stops P (bad msg l)

Stops-if :
    {A : Type 0} {P : Place → Type 0} (b : Bool) {x y : Scan A}
    → (b ≡ true → Stops P x)
    → (b ≡ false → Stops P y)
    → Stops P (if b then x else y)
Stops-if true h k = h refl
Stops-if false h k = k refl

Reads-skip_sign : (l : Lexer) → Reads (place l) (place (skip_sign l))
unfolding skip_sign
Reads-skip_sign l = elim (Bool-cases (char_in_string (lexer_peek l) (codes "+-"))) [
  | inl sign ↦ rw sign (Reads-advance l)
  | inr none_there ↦ rw none_there (Reads-refl (place l))
]

digit-ne-zero : (c : ℕ) → is_digit c ≡ true → c ≢ 0
unfolding is_digit
digit-ne-zero c h e = ground arith

module _ {p : Place} where
  prefixed_digits-Passes :
      (base : ℕ) (f : ℕ → Bool) (msg : Message) (l : Lexer)
      → Passes p (place (lexer_advance l))
      → Stops (Passes p) (prefixed_digits base f msg l)
  unfolding prefixed_digits
  prefixed_digits-Passes base f msg l h =
      let h' = Passes-Reads h (Reads-advance (lexer_advance l)) in
      elim (Bool-cases (f (lexer_peek (lexer_advance (lexer_advance l))))) [
        | inl more ↦
            rw (more, prefixed_digits)
              (stops_got
                (Passes-Reads h' (Reads-advance_while f (lexer_advance (lexer_advance l)))))
        | inr none_there ↦ rw (none_there, prefixed_digits) (stops_bad h')
      ]

  scan_fraction-Passes :
      (base : ℕ) (l : Lexer) → Passes p (place l) → Stops (Passes p) (scan_fraction base l)
  unfolding scan_fraction
  scan_fraction-Passes base l h = search (
    Stops-if,
    stops_got,
    h,
    Passes-Reads h (Reads-trans (Reads-advance l) (Reads-advance_while is_digit (lexer_advance l))),
  )

  scan_exponent-Passes :
      (base : ℕ) (is_float : Bool) (l : Lexer)
      → Passes p (place l)
      → Stops (Passes p) (scan_exponent base is_float l)
  unfolding scan_exponent
  scan_exponent-Passes base is_float l h =
      let h' = Passes-Reads h (Reads-trans (Reads-advance l) (Reads-skip_sign (lexer_advance l))) in
      search (
        Stops-if,
        stops_got,
        stops_bad,
        Passes-Reads h' (Reads-advance_while is_digit (skip_sign (lexer_advance l))),
      )

  Stops-bind :
      {A B : Type 0} {s : Scan A} (f : A → Lexer → Scan B)
      → Stops (Passes p) s
      → ((a : A) (l : Lexer) → Passes p (place l) → Stops (Passes p) (f a l))
      → Stops (Passes p) (s >>= f)
  Stops-bind f (stops_got {a = a} {l = l} h) k = k a l h
  Stops-bind f (stops_bad h) k = stops_bad h

  scan_base-Passes :
      (l : Lexer)
      → is_digit (lexer_peek l) ≡ true
      → Reads p (place l)
      → Stops (Passes p) (scan_base l)
  unfolding scan_base
  scan_base-Passes l d r =
      let h = Reads-Passes r (Passes-advance l (digit-ne-zero (lexer_peek l) d)) in
      search (
        Stops-if,
        stops_got,
        h,
        Passes-Reads h (Reads-advance_while is_octal_digit (lexer_advance l)),
        Reads-Passes r (Passes-advance_while is_digit l d (unfold is_digit in refl)),
        prefixed_digits-Passes,
      )

point-ne-digit : (c : ℕ) → c ≡ b'.' → is_digit c ≡ false
unfolding is_digit
point-ne-digit c e = ground arith

digit-ne-alpha : (c : ℕ) → is_digit c ≡ true → is_alpha c ≡ false
unfolding is_digit is_alpha
digit-ne-alpha c h = ground arith

scan_base-point : (l : Lexer) → lexer_peek l ≡ b'.' → scan_base l ≡ got 10 l
unfolding scan_base
scan_base-point l e =
    let not_zero : (lexer_peek l == b'0') ≡ false = ground arith in
    rw (not_zero, scan_base)
      (ap (got 10) (advance_while_stop is_digit l (point-ne-digit (lexer_peek l) e)))

scan_fraction-Passes_point :
    {p : Place} (l : Lexer)
    → lexer_peek l ≡ b'.'
    → is_digit (lexer_peek_next l) ≡ true
    → Reads p (place l)
    → Stops (Passes p) (scan_fraction 10 l)
unfolding scan_fraction
scan_fraction-Passes_point l e d r =
    let point : (lexer_peek l == b'.') ≡ true = ground arith in
    rw (point, digit-ne-alpha (lexer_peek_next l) d, scan_fraction)
      (stops_got (
        Passes-Reads (Reads-Passes r (Passes-advance l (λ z. ground arith)))
          (Reads-advance_while is_digit (lexer_advance l))))

module _ {F : Type 0} (libc : Libc F) {p : Place} where
  convert-Passes :
      (base : ℕ) (is_float : Bool) (l : Lexer)
      → Passes p (place l)
      → Stops (Passes p) (convert libc base is_float l)
  unfolding convert
  convert-Passes base true l h = elim (Bool-cases (libc.strtod l.token_start).1) [
    | inl range ↦ rw (range, convert) (stops_bad h)
    | inr fine ↦ rw (fine, convert) (stops_got h)
  ]
  convert-Passes base false l h = elim (Bool-cases (base == 2)) [
    | inl binary ↦ elim (Option-cases (binary_value 0 (drop 2 l.token_start))) [
      | inl range ↦ rw (binary, range, convert) (stops_bad h)
      | inr (n, fine) ↦ rw (binary, fine, convert) (stops_got h)
    ]
    | inr other ↦ elim (Bool-cases (libc.strtoll l.token_start base).1) [
      | inl range ↦ rw (other, range, convert) (stops_bad h)
      | inr fine ↦ rw (other, fine, convert) (stops_got h)
    ]
  ]

  -- The scan behind the digits before the point.
  scan_rest-Passes :
      (base : ℕ) (has_point : Bool) (l : Lexer)
      → Passes p (place l)
      → Stops
          (Passes p)
          (scan_exponent base has_point l >>= λ is_float l'. convert libc base is_float l')
  scan_rest-Passes base has_point l h =
      Stops-bind _ (scan_exponent-Passes base has_point l h) (convert-Passes base)

  pub scan_literal-Passes :
      (l : Lexer)
      → is_digit (lexer_peek l) ≡ true
      → Reads p (place l)
      → Stops (Passes p) (scan_literal libc l)
  unfolding scan_literal
  scan_literal-Passes l d r =
      Stops-bind _ (scan_base-Passes l d r)
        λ base l1 h1. Stops-bind _ (scan_fraction-Passes base l1 h1) (scan_rest-Passes base)

  -- A number that starts with its point.
  pub scan_literal-Passes_point :
      (l : Lexer)
      → lexer_peek l ≡ b'.'
      → is_digit (lexer_peek_next l) ≡ true
      → Reads p (place l)
      → Stops (Passes p) (scan_literal libc l)
  unfolding scan_literal
  scan_literal-Passes_point l e d r =
      rw (scan_base-point l e)
        (Stops-bind _ (scan_fraction-Passes_point l e d r) (scan_rest-Passes 10))
