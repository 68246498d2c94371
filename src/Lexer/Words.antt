-- ===== src/Lexer/Words.antt =====
-- src/lexer.c: identifiers, keywords and literal values.
use snuk.Prelude.{
  ℕ, Bool, true, false, not, ◌||◌, ◌&&◌, List, [], ◌∷◌, ◌==◌, if◌then◌else◌, Outcome, codes,
}
use snuk.Chars.{is_alpha_numeric}
use snuk.Text.{StringView, create_with_len, equal_cstr, equal_cstr_ignore_case}
use snuk.Lexer.Token.{
  TokenType, eof, identifier, kw_true, kw_false, kw_null, kw_nan, kw_inf, kw_var, kw_const, kw_any,
  kw_if, kw_else, kw_match, kw_case, kw_while, kw_do, kw_for, kw_in, kw_return, kw_break,
  kw_continue, kw_fn, kw_type, kw_interface, kw_extend, kw_self, kw_print, kw_and, kw_or, kw_not,
  Token,
}
use snuk.Lexer.Cursor.{Lexer, advance_while, start_token, distance, lexer_build_token}

pub record KeyWord : Type 0 where
  pub keyword : List ℕ
  pub type : TokenType

pub record Value : Type 0 where
  pub value : List ℕ
  pub type : TokenType
  pub ignore_case : Bool

abbrev pub keywords : List KeyWord
keywords =
    record { keyword = codes "var"; type = kw_var }
    ∷ record { keyword = codes "const"; type = kw_const }
    ∷ record { keyword = codes "any"; type = kw_any }
    ∷ record { keyword = codes "if"; type = kw_if }
    ∷ record { keyword = codes "else"; type = kw_else }
    ∷ record { keyword = codes "match"; type = kw_match }
    ∷ record { keyword = codes "case"; type = kw_case }
    ∷ record { keyword = codes "while"; type = kw_while }
    ∷ record { keyword = codes "do"; type = kw_do }
    ∷ record { keyword = codes "for"; type = kw_for }
    ∷ record { keyword = codes "in"; type = kw_in }
    ∷ record { keyword = codes "return"; type = kw_return }
    ∷ record { keyword = codes "break"; type = kw_break }
    ∷ record { keyword = codes "continue"; type = kw_continue }
    ∷ record { keyword = codes "fn"; type = kw_fn }
    ∷ record { keyword = codes "print"; type = kw_print }
    ∷ record { keyword = codes "self"; type = kw_self }
    ∷ record { keyword = codes "type"; type = kw_type }
    ∷ record { keyword = codes "interface"; type = kw_interface }
    ∷ record { keyword = codes "extend"; type = kw_extend }
    ∷ record { keyword = codes "or"; type = kw_or }
    ∷ record { keyword = codes "and"; type = kw_and }
    ∷ record { keyword = codes "not"; type = kw_not }
    ∷ []

abbrev pub values : List Value
values =
    record { value = codes "true"; type = kw_true; ignore_case = false }
    ∷ record { value = codes "false"; type = kw_false; ignore_case = false }
    ∷ record { value = codes "null"; type = kw_null; ignore_case = false }
    ∷ record { value = codes "nan"; type = kw_nan; ignore_case = true }
    ∷ record { value = codes "inf"; type = kw_inf; ignore_case = true }
    ∷ record { value = codes "infinity"; type = kw_inf; ignore_case = true }
    ∷ []

unfoldable pub keyword_in : List KeyWord → StringView → TokenType
keyword_in [] word = eof
keyword_in (k ∷ ks) word =
    let rest = keyword_in ks word in if equal_cstr word k.keyword then k.type else rest

unfoldable pub check_keyword : StringView → TokenType
check_keyword word = keyword_in keywords word

unfoldable pub value_in : List Value → StringView → TokenType
value_in [] word = eof
value_in (v ∷ vs) word =
    let rest = value_in vs word in
    if v.ignore_case && equal_cstr_ignore_case word v.value
    then v.type
    else if equal_cstr word v.value
    then v.type
    else rest

unfoldable pub check_values : StringView → TokenType
check_values word = value_in values word

abbrev pub is_eof : TokenType → Bool
is_eof eof = true
is_eof _ = false

-- The decision between keyword, value and identifier in `lexer_scan_word`.
unfoldable pub word_type : StringView → TokenType
word_type word =
    let type = check_keyword word in
    if not (is_eof type)
    then type
    else let value = check_values word in if not (is_eof value) then value else identifier

abbrev pub is_word_char : ℕ → Bool
is_word_char c = is_alpha_numeric c || c == b'_'

unfoldable pub lexer_scan_word : {F : Type 0} → Lexer → Outcome (Token F × Lexer)
lexer_scan_word l =
    let end = advance_while is_word_char (start_token l) in
    let word = create_with_len end.token_start (distance end.token_start end.cur) in
    lexer_build_token end (word_type word)
