-- ===== src/Lexer/Place.antt =====
-- Where the cursor stands, and the relation between two places of which the second lies behind the
-- first by some characters. `Reads` looks at the fields of a lexer that make up its place only.
use snuk.Prelude.{
  ℕ, ◌+◌, ◌≤◌, ◌<◌, ◌≡◌, ◌≢◌, refl, sym, ap, ◌∙◌, List, [], ◌∷◌, ◌++◌, length, arith, ◌==◌,
  if◌then◌else◌, append_assoc, length-append, Bool, true, false, Bool-cases, inl, inr,
}
use snuk.Lexer.Cursor.{
  Lexer, char_at, lexer_peek, step_over, advance_at, lexer_advance, advance_while_at, advance_while,
}

pub record Place : Type 0 where
  pub src : List ℕ
  pub cur : List ℕ
  pub line : ℕ
  pub col : ℕ

abbrev pub place : Lexer → Place
place l = record { src = l.src; cur = l.cur; line = l.line; col = l.col }

-- The newlines of a text.
abbrev pub newlines : List ℕ → ℕ
newlines [] = 0
newlines (c ∷ s) = if c == b'\n' then newlines s + 1 else newlines s

-- The column behind a text that begins at column `n`.
abbrev pub column : ℕ → List ℕ → ℕ
column n [] = n
column n (c ∷ s) = column (if c == b'\n' then 0 else n + 1) s

pub record Reads (p q : Place) : Type 0 where
  pub read : List ℕ
  pub same_src : q.src ≡ p.src
  pub splits : p.cur ≡ read ++ q.cur
  pub line_is : q.line ≡ p.line + newlines read
  pub col_is : q.col ≡ column p.col read

newlines-append : (s t : List ℕ) → newlines (s ++ t) ≡ newlines s + newlines t
newlines-append [] t = omega arith
newlines-append (c ∷ s) t = ground (arith, newlines-append s t)

column-append : (n : ℕ) (s t : List ℕ) → column n (s ++ t) ≡ column (column n s) t
column-append n [] t = refl
column-append n (c ∷ s) t = column-append (if c == b'\n' then 0 else n + 1) s t

pub Reads-refl : (p : Place) → Reads p p
Reads-refl p = record {
  read = [];
  same_src = refl;
  splits = refl;
  line_is = omega arith;
  col_is = refl;
}

pub Reads-trans : {p q r : Place} → Reads p q → Reads q r → Reads p r
Reads-trans {p} {q} {r} a b = record {
  read = a.read ++ b.read;
  same_src = b.same_src ∙ a.same_src;
  splits = a.splits ∙ ap (◌++◌ a.read) b.splits ∙ sym (append_assoc a.read b.read r.cur);
  line_is = omega (arith, a.line_is, b.line_is, newlines-append a.read b.read);
  col_is = b.col_is ∙ ap (λ n. column n b.read) a.col_is ∙ sym (column-append p.col a.read b.read);
}

pub Reads-step_over :
    (c : ℕ) (rest : List ℕ) (l : Lexer)
    → l.cur ≡ c ∷ rest
    → Reads (place l) (place (step_over c rest l))
Reads-step_over c rest l e = record {
  read = c ∷ [];
  same_src = ground arith;
  splits = ground arith;
  line_is = ground arith;
  col_is = ground arith;
}

pub cur-step_over : (c : ℕ) (rest : List ℕ) (l : Lexer) → (step_over c rest l).cur ≡ rest
cur-step_over c rest l = ground arith

-- The cursor never moves back.
pub Reads-length : {p q : Place} → Reads p q → length q.cur ≤ length p.cur
Reads-length {p} {q} r = omega (arith, ap {A = List ℕ} length r.splits, length-append r.read q.cur)

pub Reads-advance_at :
    (s : List ℕ) (l : Lexer) → l.cur ≡ s → Reads (place l) (place (advance_at s l))
Reads-advance_at [] l e = Reads-refl (place l)
Reads-advance_at (c ∷ rest) l e = Reads-step_over c rest l e

pub Reads-advance : (l : Lexer) → Reads (place l) (place (lexer_advance l))
unfolding lexer_advance
Reads-advance l = Reads-advance_at l.cur l refl

Reads-advance_while_at :
    (p : ℕ → Bool) (s : List ℕ) (l : Lexer)
    → l.cur ≡ s
    → Reads (place l) (place (advance_while_at p s l))
Reads-advance_while_at p [] l e = Reads-refl (place l)
Reads-advance_while_at p (c ∷ rest) l e = elim (Bool-cases (p c)) [
  | inl more ↦ rw more (
      Reads-trans (Reads-step_over c rest l e)
        (Reads-advance_while_at p rest (step_over c rest l) (cur-step_over c rest l)))
  | inr stop ↦ rw stop (Reads-refl (place l))
]

pub Reads-advance_while : (p : ℕ → Bool) (l : Lexer) → Reads (place l) (place (advance_while p l))
unfolding advance_while
Reads-advance_while p l = Reads-advance_while_at p l.cur l refl

-- Behind, by one character at least.
abbrev pub Passes : Place → Place → Type 0
Passes p q = Reads p q × (length q.cur < length p.cur)

pub Passes-Reads : {p q r : Place} → Passes p q → Reads q r → Passes p r
Passes-Reads a b = (Reads-trans a.0 b, omega (arith, a.1, Reads-length b))

pub Reads-Passes : {p q r : Place} → Reads p q → Passes q r → Passes p r
Reads-Passes a b = (Reads-trans a b.0, omega (arith, b.1, Reads-length a))

pub Passes-step_over :
    (c : ℕ) (rest : List ℕ) (l : Lexer)
    → l.cur ≡ c ∷ rest
    → Passes (place l) (place (step_over c rest l))
Passes-step_over c rest l e = (
  Reads-step_over c rest l e,
  omega (arith, ap {A = List ℕ} length (cur-step_over c rest l), ap {A = List ℕ} length e),
)

pub Passes-advance_at :
    (s : List ℕ) (l : Lexer) → l.cur ≡ s → char_at s ≢ 0 → Passes (place l) (place (advance_at s l))
Passes-advance_at [] l e h = absurd (h refl)
Passes-advance_at (c ∷ rest) l e h = Passes-step_over c rest l e

pub Passes-advance : (l : Lexer) → lexer_peek l ≢ 0 → Passes (place l) (place (lexer_advance l))
unfolding lexer_advance lexer_peek
Passes-advance l h = Passes-advance_at l.cur l refl h

Passes-advance_while_at :
    (p : ℕ → Bool) (s : List ℕ) (l : Lexer)
    → l.cur ≡ s
    → p (char_at s) ≡ true
    → p 0 ≡ false
    → Passes (place l) (place (advance_while_at p s l))
Passes-advance_while_at p [] l e h z = cc
Passes-advance_while_at p (c ∷ rest) l e h z = rw h (
    Passes-Reads (Passes-step_over c rest l e)
      (Reads-advance_while_at p rest (step_over c rest l) (cur-step_over c rest l)))

-- A loop over characters that pass its test takes the first one at least.
pub Passes-advance_while :
    (p : ℕ → Bool) (l : Lexer)
    → p (lexer_peek l) ≡ true
    → p 0 ≡ false
    → Passes (place l) (place (advance_while p l))
unfolding advance_while lexer_peek
Passes-advance_while p l h z = Passes-advance_while_at p l.cur l refl h z

advance_while_stop_at :
    (p : ℕ → Bool) (s : List ℕ) (l : Lexer) → p (char_at s) ≡ false → advance_while_at p s l ≡ l
advance_while_stop_at p [] l h = refl
advance_while_stop_at p (c ∷ rest) l h = rw h

pub advance_while_stop :
    (p : ℕ → Bool) (l : Lexer) → p (lexer_peek l) ≡ false → advance_while p l ≡ l
unfolding advance_while lexer_peek
advance_while_stop p l h = advance_while_stop_at p l.cur l h

-- The cursor's moves keep what decides on virtual semicolons, and where the token starts.
pub record Keeps (l l' : Lexer) : Type 0 where
  pub previous : l'.previous_token_type ≡ l.previous_token_type
  pub depths : l'.sd ≡ l.sd
  pub start : l'.token_start ≡ l.token_start
  pub start_line : l'.token_start_line ≡ l.token_start_line
  pub start_col : l'.token_start_col ≡ l.token_start_col

Keeps-refl : (l : Lexer) → Keeps l l
Keeps-refl l = record {
  previous = refl;
  depths = refl;
  start = refl;
  start_line = refl;
  start_col = refl;
}

Keeps-step_over :
    (c : ℕ) (rest : List ℕ) (l l' : Lexer) → Keeps (step_over c rest l) l' → Keeps l l'
Keeps-step_over c rest l l' k = record {
  previous = k.previous ∙ ground arith;
  depths = k.depths ∙ ground arith;
  start = k.start ∙ ground arith;
  start_line = k.start_line ∙ ground arith;
  start_col = k.start_col ∙ ground arith;
}

Keeps-advance_while_at : (p : ℕ → Bool) (s : List ℕ) (l : Lexer) → Keeps l (advance_while_at p s l)
Keeps-advance_while_at p [] l = Keeps-refl l
Keeps-advance_while_at p (c ∷ rest) l = elim (Bool-cases (p c)) [
  | inl more ↦ rw more (
      Keeps-step_over c rest l (advance_while_at p rest (step_over c rest l))
        (Keeps-advance_while_at p rest (step_over c rest l)))
  | inr stop ↦ rw stop (Keeps-refl l)
]

pub Keeps-advance_while : (p : ℕ → Bool) (l : Lexer) → Keeps l (advance_while p l)
unfolding advance_while
Keeps-advance_while p l = Keeps-advance_while_at p l.cur l
