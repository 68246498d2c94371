-- ===== src/Lexer/Position.antt =====
-- Lines and columns of the states that the lexer reaches, and of error tokens.
use snuk.Prelude.{
  ℕ, ◌-◌, ◌≡◌, refl, sym, ap, ◌∙◌, false, List, [], ◌∷◌, ◌++◌, append-nil, append_assoc, length,
  length-append, take, drop, drop-append, arith, ◌==◌, if◌then◌else◌, Bool-cases, inl, inr, ok,
}
use native.Mathlib.Numerals.{add-one}
use snuk.Text.{content}
use snuk.Lexer.Token.{Message, Token}
use snuk.Lexer.Cursor.{
  Lexer, distance, line_start, line_length, lexer_build_error_token, lexer_init,
}
use snuk.Lexer.Numbers.{Libc}
use snuk.Lexer.Next.{string_literal, snuk_lexer_next_token}
use snuk.Lexer.Place.{place, newlines, column, Reads, Reads-refl, Reads-trans}
use snuk.Lexer.Yields.{Yields-ok}
use snuk.Lexer.Progress.Whole.{snuk_lexer_next_token-NextToken}

-- The states that calls of `snuk_lexer_next_token` reach from the start of a text.
pub data Reached {F : Type 0} (libc : Libc F) (src : List ℕ) : Lexer → Type 0 where
  start : Reached libc src (lexer_init src)
  next :
      {l l' : Lexer} {t : Token F}
      → Reached libc src l
      → snuk_lexer_next_token libc l ≡ ok (t, l')
      → Reached libc src l'

-- Every reached state has read a part of the text, with as many newlines as its line says, and
-- stands behind the last of them by its column.
pub Reached-Reads :
    {F : Type 0} {libc : Libc F} {src : List ℕ} {l : Lexer}
    → Reached libc src l
    → Reads (place (lexer_init src)) (place l)
Reached-Reads start = Reads-refl _
Reached-Reads {libc = libc} (next {l = l} r e) =
    Reads-trans (Reached-Reads r) (Yields-ok (snuk_lexer_next_token-NextToken libc l) e).reads

-- The part of a text behind its last newline, and the part in front of its first.
abbrev pub last_line_from : List ℕ → List ℕ → List ℕ
last_line_from acc [] = acc
last_line_from acc (c ∷ s) =
    if c == b'\n' then last_line_from [] s else last_line_from (acc ++ c ∷ []) s

abbrev pub last_line : List ℕ → List ℕ
last_line s = last_line_from [] s

abbrev pub first_line : List ℕ → List ℕ
first_line [] = []
first_line (c ∷ s) = if c == b'\n' then [] else c ∷ first_line s

length-last_line_from : (acc s : List ℕ) → length (last_line_from acc s) ≡ column (length acc) s
length-last_line_from acc [] = refl
length-last_line_from acc (c ∷ s) = elim (Bool-cases (c == b'\n')) [
  | inl nl ↦ rw nl (length-last_line_from [] s)
  | inr other ↦ rw other (
      length-last_line_from (acc ++ c ∷ []) s
      ∙ ap (λ n. column n s) (omega (arith, length-append acc (c ∷ []))))
]

-- The last line ends the text.
last_line_from-suffix :
    (acc s : List ℕ) → (front : List ℕ) × (acc ++ s ≡ front ++ last_line_from acc s)
last_line_from-suffix acc [] = ([], append-nil acc)
last_line_from-suffix acc (c ∷ s) = elim (Bool-cases (c == b'\n')) [
  | inl nl ↦
      let (front, e) = last_line_from-suffix [] s in
      (
        acc ++ c ∷ front,
        rw nl (ap (λ t. acc ++ c ∷ t) e ∙ sym (append_assoc acc (c ∷ front) (last_line_from [] s))),
      )
  | inr other ↦
      let (front, e) = last_line_from-suffix (acc ++ c ∷ []) s in
      (front, rw other (sym (append_assoc acc (c ∷ []) s) ∙ e))
]

newlines-concat :
    (s : List ℕ) (c : ℕ) → (c == b'\n') ≡ false → newlines s ≡ 0 → newlines (s ++ c ∷ []) ≡ 0
newlines-concat [] c h e = ground arith
newlines-concat (x ∷ s) c h e = ground (arith, newlines-concat s c h)

newlines-last_line_from : (acc s : List ℕ) → newlines acc ≡ 0 → newlines (last_line_from acc s) ≡ 0
newlines-last_line_from acc [] h = h
newlines-last_line_from acc (c ∷ s) h = elim (Bool-cases (c == b'\n')) [
  | inl nl ↦ rw nl (newlines-last_line_from [] s refl)
  | inr other ↦ rw other (newlines-last_line_from (acc ++ c ∷ []) s (newlines-concat acc c other h))
]

-- A line behind characters that are no newline has these in front.
take-line_length :
    (s t : List ℕ) → newlines s ≡ 0 → take (line_length (s ++ t)) (s ++ t) ≡ s ++ first_line t
take-line_length [] [] h = refl
take-line_length [] (c ∷ t) h = elim (Bool-cases (c == b'\n')) [
  | inl nl ↦ rw (nl) refl
  | inr other ↦ rw (other, add-one) (ap (◌∷◌ c) (take-line_length [] t refl))
]
take-line_length (c ∷ s) t h = elim (Bool-cases (c == b'\n')) [
  | inl nl ↦ absurd (ground arith)
  | inr other ↦ rw (other, add-one) (ap (◌∷◌ c) (take-line_length s t (ground arith)))
]

drop_front :
    (front last cur src : List ℕ) (col : ℕ)
    → src ≡ (front ++ last) ++ cur
    → length last ≡ col
    → drop (distance src cur - col) src ≡ last ++ cur
drop_front front last cur src col e h =
    let n : distance src cur - col ≡ length front = omega (
      arith,
      ap {A = List ℕ} length e,
      length-append (front ++ last) cur,
      length-append front last,
    ) in
    rw (n, e, append_assoc) (drop-append front (last ++ cur))

-- `cur - col` is the start of the line that the cursor stands in.
line_start_lem :
    (l l' : Lexer)
    → l.cur ≡ l.src
    → l.col ≡ 0
    → (r : Reads (place l) (place l')) → line_start l' ≡ last_line r.read ++ l'.cur
line_start_lem l l' at_start at_zero r =
    let (front, e) = last_line_from-suffix [] r.read in
    drop_front front (last_line r.read) l'.cur l'.src l'.col
      (r.same_src ∙ sym at_start ∙ r.splits ∙ ap (λ t. t ++ l'.cur) e)
      (length-last_line_from [] r.read ∙ ap (λ n. column n r.read) (sym at_zero) ∙ sym r.col_is)

-- An error token that is built behind a part `read` of the text shows the whole line that the cursor
-- stands in. Its line is the number of newlines read, and its column counts the characters behind
-- the last of them.
pub error_token_line :
    (F : Type 0) (src : List ℕ) (l : Lexer) (msg : Message)
    → (r : Reads (place (lexer_init src)) (place l))
    → let token = (lexer_build_error_token {F = F} l msg).0 in
      (content (string_literal token.literal) ≡ last_line r.read ++ first_line l.cur)
      × (token.line ≡ newlines r.read)
      × (token.col ≡ length (last_line r.read))
unfolding lexer_build_error_token lexer_init
error_token_line F src l msg r = (
  rw (line_start_lem (lexer_init src) l refl refl r)
      (take-line_length (last_line r.read) l.cur (newlines-last_line_from [] r.read refl)),
  r.line_is ∙ omega arith,
  r.col_is ∙ sym (length-last_line_from [] r.read),
)
