-- ===== src/Lexer/WordScan.antt =====
-- What `lexer_scan_word` takes.
use snuk.Prelude.{
  ℕ, ◌≡◌, refl, sym, ap, ◌∙◌, Bool, true, false, not, ◌&&◌, List, [], ◌∷◌, ◌++◌, length,
  length-append, take-append, arith, if◌then◌else◌, Bool-cases, inl, inr, ok,
}
use snuk.Text.{StringView, content, Fits, create_with_len}
use snuk.Lexer.Token.{
  TokenType, identifier, lparen, rparen, lbrace, rbrace, lbracket, rbracket, Token,
}
use snuk.Lexer.Depth.{Depths}
use snuk.Lexer.Cursor.{
  Lexer, advance_while, start_token, depth_after, distance, token_of, lexer_build_token,
}
use snuk.Lexer.Words.{
  KeyWord, Value, keywords, values, is_eof, word_type, is_word_char, lexer_scan_word,
}
use snuk.Lexer.Next.{string_literal}
use snuk.Lexer.Place.{Keeps, Keeps-advance_while}
use snuk.Lexer.Spelling.{
  take_while, drop_while, take-append-drop_while, advance_while_at-drop_while, keyword_of, value_of,
  spelling_type, word_type-spelling_type,
}

-- Types of tokens that leave the depth of the scope alone.
abbrev keeps_depth : TokenType → Bool
keeps_depth lparen = false
keeps_depth rparen = false
keeps_depth lbrace = false
keeps_depth rbrace = false
keeps_depth lbracket = false
keeps_depth rbracket = false
keeps_depth _ = true

depth_after-keeps_depth :
    (t : TokenType) (sd : Depths) → keeps_depth t ≡ true → depth_after t sd ≡ ok sd
unfolding depth_after
depth_after-keeps_depth lparen sd h = cc
depth_after-keeps_depth rparen sd h = cc
depth_after-keeps_depth lbrace sd h = cc
depth_after-keeps_depth rbrace sd h = cc
depth_after-keeps_depth lbracket sd h = cc
depth_after-keeps_depth rbracket sd h = cc
depth_after-keeps_depth _ sd h = refl

abbrev keywords_keep : List KeyWord → Bool
keywords_keep [] = true
keywords_keep (k ∷ ks) = keeps_depth k.type && keywords_keep ks

abbrev values_keep : List Value → Bool
values_keep [] = true
values_keep (v ∷ vs) = keeps_depth v.type && values_keep vs

keyword_of-keeps_depth :
    (ks : List KeyWord) (s : List ℕ)
    → keywords_keep ks ≡ true
    → keeps_depth (keyword_of ks s) ≡ true
unfolding keyword_of
keyword_of-keeps_depth [] s h = refl
keyword_of-keeps_depth (k ∷ ks) s h = ground (arith, keyword_of-keeps_depth ks s)

value_of-keeps_depth :
    (vs : List Value) (s : List ℕ) → values_keep vs ≡ true → keeps_depth (value_of vs s) ≡ true
unfolding value_of
value_of-keeps_depth [] s h = refl
value_of-keeps_depth (v ∷ vs) s h = ground (arith, value_of-keeps_depth vs s)

choice-keeps_depth :
    (k v : TokenType)
    → keeps_depth k ≡ true
    → keeps_depth v ≡ true
    → keeps_depth (if not (is_eof k) then k else if not (is_eof v) then v else identifier) ≡ true
choice-keeps_depth k v hk hv = elim (Bool-cases (is_eof k)) [
  | inl e ↦ rw e (elim (Bool-cases (is_eof v)) [ inl f ↦ rw f | inr f ↦ rw f hv ])
  | inr e ↦ rw e hk
]

spelling_type-keeps_depth : (s : List ℕ) → keeps_depth (spelling_type s) ≡ true
unfolding spelling_type
spelling_type-keeps_depth s =
    choice-keeps_depth (keyword_of keywords s) (value_of values s)
      (keyword_of-keeps_depth keywords s refl) (value_of-keeps_depth values s refl)

-- The view from `front` up to where `rest` begins.
view_lem :
    (front rest : List ℕ)
    → Fits (create_with_len (front ++ rest) (distance (front ++ rest) rest))
      × (content (create_with_len (front ++ rest) (distance (front ++ rest) rest)) ≡ front)
unfolding create_with_len
view_lem front rest =
    let n : distance (front ++ rest) rest ≡ length front =
      omega (arith, length-append front rest) in
    rw n (omega (arith, length-append front rest), take-append front rest)

build_token_ok :
    (F : Type 0) (l : Lexer) (type : TokenType)
    → keeps_depth type ≡ true
    → lexer_build_token {F = F} l type
      ≡ ok (token_of l type, record l { previous_token_type = type })
unfolding lexer_build_token
build_token_ok F l type h = rw (depth_after-keeps_depth type l.sd h)

-- The view of the token that is being built.
abbrev token_view : Lexer → StringView
token_view l = create_with_len l.token_start (distance l.token_start l.cur)

token_view_lem :
    (front rest : List ℕ) (l : Lexer)
    → l.token_start ≡ front ++ rest
    → l.cur ≡ rest
    → Fits (token_view l) × (content (token_view l) ≡ front)
token_view_lem front rest l e h = rw (e, h) (view_lem front rest)

-- The state at the end of a word.
abbrev word_end : Lexer → Lexer
word_end l = advance_while is_word_char (start_token l)

word_end_cur : (l : Lexer) → (word_end l).cur ≡ drop_while is_word_char l.cur
unfolding advance_while start_token
word_end_cur l = advance_while_at-drop_while is_word_char l.cur (start_token l) refl

word_end_start : (l : Lexer) → Keeps (start_token l) (word_end l)
word_end_start l = Keeps-advance_while is_word_char (start_token l)

word_view_lem :
    (l : Lexer)
    → Fits (token_view (word_end l))
      × (content (token_view (word_end l)) ≡ take_while is_word_char l.cur)
unfolding start_token
word_view_lem l =
    token_view_lem (take_while is_word_char l.cur) (drop_while is_word_char l.cur) (word_end l)
      ((word_end_start l).start ∙ sym (take-append-drop_while is_word_char l.cur)) (word_end_cur l)

word_type_lem :
    (l : Lexer)
    → word_type (token_view (word_end l)) ≡ spelling_type (take_while is_word_char l.cur)
word_type_lem l =
    word_type-spelling_type _ (word_view_lem l).0 ∙ ap spelling_type (word_view_lem l).1

-- `lexer_scan_word` never fails. Its token shows the longest run of word characters from the cursor
-- on, is placed where the run starts, and has the type of that spelling; the cursor ends behind
-- the run.
pub scan_word_lem :
    (F : Type 0) (l : Lexer)
    → (t : Token F) × (l' : Lexer) × (lexer_scan_word l ≡ ok (t, l'))
      × (content (string_literal t.literal) ≡ take_while is_word_char l.cur)
      × (t.type ≡ spelling_type (take_while is_word_char l.cur))
      × (t.line ≡ l.line)
      × (t.col ≡ l.col)
      × (l'.cur ≡ drop_while is_word_char l.cur)
unfolding lexer_scan_word start_token
scan_word_lem F l =
    let type = word_type (token_view (word_end l)) in
    (
      token_of (word_end l) type,
      record (word_end l) { previous_token_type = type },
      build_token_ok F (word_end l) type
          (rw (word_type_lem l) (spelling_type-keeps_depth (take_while is_word_char l.cur))),
      (word_view_lem l).1,
      word_type_lem l,
      (word_end_start l).start_line,
      (word_end_start l).start_col,
      word_end_cur l,
    )
