-- ===== src/Lexer/Spelling.antt =====
-- What `lexer_scan_word` takes, and how the spelling of a word decides its type.
use snuk.Prelude.{
  ℕ, ◌≡◌, refl, ap, Bool, not, ◌&&◌, ◌||◌, List, [], ◌∷◌, ◌++◌, arith, if◌then◌else◌, Bool-cases,
  inl, inr,
}
use snuk.Text.{StringView, content, Fits, string_equal, string_equal_ignore_case}
use snuk.Text.Equal.{equal_cstr_lem, equal_cstr_ignore_case_lem}
use snuk.Lexer.Token.{TokenType, identifier, eof}
use snuk.Lexer.Cursor.{Lexer, step_over, advance_while_at}
use snuk.Lexer.Words.{
  KeyWord, Value, keywords, values, keyword_in, value_in, check_keyword, check_values, is_eof,
  word_type,
}
use snuk.Lexer.Place.{cur-step_over}

-- The longest part in front of which every character passes a test, and what is behind it.
abbrev pub take_while : (ℕ → Bool) → List ℕ → List ℕ
take_while p [] = []
take_while p (c ∷ s) = if p c then c ∷ take_while p s else []

abbrev pub drop_while : (ℕ → Bool) → List ℕ → List ℕ
drop_while p [] = []
drop_while p (c ∷ s) = if p c then drop_while p s else c ∷ s

pub take-append-drop_while : (p : ℕ → Bool) (s : List ℕ) → take_while p s ++ drop_while p s ≡ s
take-append-drop_while p [] = refl
take-append-drop_while p (c ∷ s) = elim (Bool-cases (p c)) [
  | inl more ↦ rw more (ap (◌∷◌ c) (take-append-drop_while p s))
  | inr stop ↦ rw stop
]

pub advance_while_at-drop_while :
    (p : ℕ → Bool) (s : List ℕ) (l : Lexer)
    → l.cur ≡ s
    → (advance_while_at p s l).cur ≡ drop_while p s
advance_while_at-drop_while p [] l e = e
advance_while_at-drop_while p (c ∷ s) l e = elim (Bool-cases (p c)) [
  | inl more ↦ rw more (advance_while_at-drop_while p s (step_over c s l) (cur-step_over c s l))
  | inr stop ↦ rw stop e
]

-- The lookup of a spelling in the tables of the lexer: exact but for "nan", "inf" and "infinity".
unfoldable pub keyword_of : List KeyWord → List ℕ → TokenType
keyword_of [] s = eof
keyword_of (k ∷ ks) s = if string_equal s k.keyword then k.type else keyword_of ks s

unfoldable pub value_of : List Value → List ℕ → TokenType
value_of [] s = eof
value_of (v ∷ vs) s =
    if (v.ignore_case && string_equal_ignore_case s v.value) || string_equal s v.value
    then v.type
    else value_of vs s

unfoldable pub spelling_type : List ℕ → TokenType
unfolding keyword_of value_of
spelling_type s =
    if not (is_eof (keyword_of keywords s))
    then keyword_of keywords s
    else if not (is_eof (value_of values s))
    then value_of values s
    else identifier

keyword_in-keyword_of :
    (ks : List KeyWord) (v : StringView) → Fits v → keyword_in ks v ≡ keyword_of ks (content v)
unfolding keyword_in keyword_of
keyword_in-keyword_of [] v p = refl
keyword_in-keyword_of (k ∷ ks) v p = rw (equal_cstr_lem v k.keyword p, keyword_in-keyword_of ks v p)

value_in-value_of :
    (vs : List Value) (v : StringView) → Fits v → value_in vs v ≡ value_of vs (content v)
unfolding value_in value_of
value_in-value_of [] v p = refl
value_in-value_of (x ∷ xs) v p =
    rw
      (equal_cstr_lem v x.value p, equal_cstr_ignore_case_lem v x.value p, value_in-value_of xs v p)
      (ground arith)

-- The type of a word depends on the characters that its view shows.
pub word_type-spelling_type : (v : StringView) → Fits v → word_type v ≡ spelling_type (content v)
unfolding word_type check_keyword check_values spelling_type
word_type-spelling_type v p = rw (keyword_in-keyword_of keywords v p, value_in-value_of values v p)
