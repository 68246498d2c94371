-- ===== src/Parser/Stream.antt =====
-- The tokens that a parser reads as one endless stream, and what the steps of
-- include/snuk/parser/parser_common.h do on it.
use Prim.Native.String.{String}
use snuk.Prelude.{ℕ, zero, suc, Bool, true, false, List, [], ◌∷◌, ◌++◌, ◌≡◌, refl, ap, ok}
use snuk.Lexer.Token
use snuk.Lexer.Token.{TokenType, Token}
use snuk.Parser.Enum.{same_type}
use snuk.Parser.State.{Parser, done, take_next, parser_advance, parser_match, parser_expect}

module _ {F : Type 0} where
  -- The tokens in front of a stream.
  abbrev pub ahead : Token F → (ℕ → Token F) → ℕ → Token F
  ahead t s zero = t
  ahead t s (suc i) = s i

  abbrev pub ◌▸◌ : List (Token F) → (ℕ → Token F) → ℕ → Token F
  [] ▸ s = s
  (t ∷ ts) ▸ s = ahead t (ts ▸ s)

  infixr 5 ◌▸◌
  abbrev pub behind : (ℕ → Token F) → ℕ → Token F
  behind s i = s (suc i)

  -- The parser in front of a stream, the token `prev` being the one that it took last.
  abbrev pub at_stream : Parser F → Token F → (ℕ → Token F) → Parser F
  at_stream q prev s = record q {
    lexer = λ i. ok (s (suc (suc i)));
    previous = prev;
    current = s 0;
    next = s 1;
  }

  abbrev pub last_of : Token F → List (Token F) → Token F
  last_of prev [] = prev
  last_of prev (t ∷ ts) = last_of t ts

  pub last_of-append :
      (prev : Token F) (ts : List (Token F)) (t : Token F) (us : List (Token F))
      → last_of prev (ts ++ (t ∷ us)) ≡ last_of t us
  last_of-append prev [] t us = refl
  last_of-append prev (x ∷ ts) t us = last_of-append x ts t us

  pub append-in_front :
      (ts us : List (Token F)) (s : ℕ → Token F) → ((ts ++ us) ▸ s) ≡ (ts ▸ (us ▸ s))
  append-in_front [] us s = refl
  append-in_front (t ∷ ts) us s = ap (ahead t) (append-in_front ts us s)

  -- Whether the stream starts with an error of the lexer.
  abbrev pub is_wrong : (ℕ → Token F) → Bool
  is_wrong s = same_type (s 0).type Token.error

  pub advance_lem :
      (q : Parser F) (prev : Token F) (s : ℕ → Token F)
      → is_wrong (behind s) ≡ false
      → parser_advance (at_stream q prev s) ≡ done tt (at_stream q (s 0) (behind s))
  unfolding parser_advance take_next
  advance_lem q prev s h = rw h refl

  pub match_yes :
      (q : Parser F) (prev : Token F) (s : ℕ → Token F) (c : TokenType)
      → same_type (s 0).type c ≡ true
      → is_wrong (behind s) ≡ false
      → parser_match c (at_stream q prev s) ≡ done true (at_stream q (s 0) (behind s))
  unfolding parser_match
  match_yes q prev s c e h = rw (e, advance_lem q prev s h) refl

  pub match_no :
      (q : Parser F) (prev : Token F) (s : ℕ → Token F) (c : TokenType)
      → same_type (s 0).type c ≡ false
      → parser_match c (at_stream q prev s) ≡ done false (at_stream q prev s)
  unfolding parser_match
  match_no q prev s c e = rw e refl

  pub expect_yes :
      (q : Parser F) (prev : Token F) (s : ℕ → Token F) (c : TokenType) (msg : String)
      → same_type (s 0).type c ≡ true
      → is_wrong (behind s) ≡ false
      → parser_expect c msg (at_stream q prev s) ≡ done tt (at_stream q (s 0) (behind s))
  unfolding parser_expect
  expect_yes q prev s c msg e h = rw (match_yes q prev s c e h) refl
