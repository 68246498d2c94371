-- ===== src/Parser/State.antt =====
-- include/snuk/parser/parser.h and parser_common.h, src/parser/parser.c: the parser's state, and the
-- steps that look at a token or take one. The lexer in the state is the stream of the tokens that
-- calls of `snuk_lexer_next_token` give, each of them a token or a fault.
use Prim.Native.String.{String}
use snuk.Prelude.{
  ℕ, zero, suc, Bool, true, false, ◌||◌, Outcome, ok, trap, ◌≡◌, refl, Fault, if◌then◌else◌,
}
use snuk.Text.{StringView, create_with_len, content}
use snuk.Lexer.Token
use snuk.Lexer.Token.{TokenType, Token}
use snuk.Lexer.Next.{string_literal}
use snuk.Parser.Enum.{same_type}

abbrev pub Stream : Type 0 → Type 0
Stream F = ℕ → Outcome (Token F)

pub record Parser (F : Type 0) : Type 0 where
  pub lexer : Stream F
  pub previous : Token F
  pub current : Token F
  pub next : Token F
  pub panic_mode : Bool
  pub err_msg : String
  pub err_token : Token F

-- A run of the parser ends with a result and the state behind it, in a fault, or it needs more rounds
-- than it was given.
pub data Run (F A : Type 0) : Type 0 where
  done : A → Parser F → Run F A
  fault : Fault → Run F A
  out_of_rounds : Run F A

abbrev pub P : Type 0 → Type 0 → Type 0
P F A = Parser F → Run F A

abbrev pub bind : {F A B : Type 0} → Run F A → (A → P F B) → Run F B
bind (done a p) f = f a p
bind (fault e) f = fault e
bind out_of_rounds f = out_of_rounds

pub bind_assoc :
    {F A B C : Type 0} (m : Run F A) (f : A → P F B) (g : B → P F C)
    → bind (bind m f) g ≡ bind m (λ a p. bind (f a p) g)
bind_assoc (done a p) f g = refl
bind_assoc (fault e) f g = refl
bind_assoc out_of_rounds f g = refl

module _ {F A B : Type 0} where
  infixl 1 ◌>>=◌ ◌>>◌
  abbrev pub ◌>>=◌ : P F A → (A → P F B) → P F B
  m >>= f = λ p. bind (m p) f

  abbrev pub ◌>>◌ : P F A → P F B → P F B
  m >> k = m >>= λ _. k

abbrev pub pure : {F A : Type 0} → A → P F A
pure a p = done a p

-- A state that a step which cannot fail leads to.
abbrev pub change : {F : Type 0} → (Parser F → Parser F) → P F (Unit {0})
change f p = done tt (f p)

-- What the state says.
abbrev pub ask : {F A : Type 0} → (Parser F → A) → P F A
ask f p = done (f p) p

module _ {F : Type 0} where
  unfoldable pub raise_error : String → Parser F → Parser F
  raise_error msg p =
      if p.panic_mode
      then p
      else record p { panic_mode = true; err_msg = msg; err_token = p.current }

  abbrev pub parser_error : String → P F (Unit {0})
  parser_error msg = change (raise_error msg)

  -- The lexer gives the token `next`.
  unfoldable pub take_next : Outcome (Token F) → Parser F → Run F (Unit {0})
  take_next (ok t) p = done tt (record p { next = t; lexer = λ i. p.lexer (suc i) })
  take_next (trap e) p = fault e

  unfoldable pub parser_advance : P F (Unit {0})
  unfolding raise_error take_next same_type
  parser_advance p =
      let p = record p { previous = p.current; current = p.next } in
      let p = if same_type p.current.type Token.error then raise_error "lexer error" p else p in
      take_next (p.lexer 0) p

  abbrev pub check : TokenType → Parser F → Bool
  check expected p = same_type p.current.type expected

  abbrev pub parser_check : TokenType → P F Bool
  parser_check expected = ask (check expected)

  abbrev pub parser_check_next : TokenType → P F Bool
  parser_check_next expected = ask (λ p. same_type p.next.type expected)

  -- Advances where the test holds, and gives its answer.
  abbrev pub advance_if : Bool → P F Bool
  advance_if true = parser_advance >> pure true
  advance_if false = pure false

  unfoldable pub parser_match : TokenType → P F Bool
  unfolding parser_advance same_type
  parser_match expected p = advance_if (check expected p) p

  abbrev pub error_unless : String → Bool → P F (Unit {0})
  error_unless msg true = pure tt
  error_unless msg false = parser_error msg

  unfoldable pub parser_expect : TokenType → String → P F (Unit {0})
  unfolding parser_match
  parser_expect expected msg = parser_match expected >>= error_unless msg

  unfoldable pub check_item_end : Parser F → Bool
  unfolding same_type
  check_item_end p = check Token.semicolon p || check Token.vsemicolon p || check Token.eof p

  abbrev pub parser_check_item_end : P F Bool
  parser_check_item_end = ask check_item_end

  unfoldable pub parser_match_item_end : P F Bool
  unfolding check_item_end parser_advance
  parser_match_item_end p = advance_if (check_item_end p) p

  unfoldable pub parser_expect_item_end : P F (Unit {0})
  unfolding parser_match_item_end
  parser_expect_item_end =
      parser_match_item_end >>= error_unless "expected a new line or a semicolon"

-- The copy has the characters that the view shows.
unfoldable pub parser_copy_string_view : StringView → StringView
unfolding create_with_len
parser_copy_string_view v = create_with_len (content v) v.len

abbrev pub text_of : {F : Type 0} → Token F → StringView
text_of t = string_literal t.literal

module _ {F A : Type 0} where
  -- `while (!parser_match(close) && current is not the end) body`. The body gives what it does to the
  -- value that the loop builds.
  unfoldable pub collect : ℕ → TokenType → P F (A → A) → A → P F A
  unfolding parser_match same_type
  collect zero close body a = λ p. out_of_rounds
  collect (suc rounds) close body a = parser_match close >>= λ closed. elim closed [
    | true ↦ pure a
    | false ↦ parser_check Token.eof >>= λ at_end. elim at_end [
      | true ↦ pure a
      | false ↦ body >>= λ f. collect rounds close body (f a)
    ]
  ]

  -- Behind such a loop: without its closing token there is an error, and the null pointer.
  unfoldable pub when_closed : TokenType → String → A → P F A → P F A
  unfolding same_type
  when_closed close msg null_pointer k = ask (λ p. same_type p.previous.type close) >>= λ closed.
      elim closed [ true ↦ k | false ↦ parser_error msg >> pure null_pointer ]
