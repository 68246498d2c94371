-- ===== src/Parser/Variables.antt =====
-- src/parser/snuk_var.c: the variables of the grammar are parsed; and the token that ends an item.
use snuk.Prelude.{
  ℕ, suc, ◌<◌, true, false, List, [], ◌∷◌, ◌++◌, length, length-append, ◌≡◌, refl, ◌∙◌, arith,
}
use snuk.Text.{StringView}
use snuk.Lexer.Token
use snuk.Lexer.Token.{TokenType, Token}
use snuk.Types.{SnukType}
use snuk.Parser.Enum.{same_type}
use snuk.Parser.Rules.{precedence_of}
use snuk.Parser.Syntax.{SnukExpr, SnukVar}
use snuk.Parser.State.{
  Parser, P, done, bind, ◌>>=◌, pure, parser_match, parser_expect_item_end, parser_match_item_end,
  check_item_end, text_of,
}
use snuk.Parser.Build.{build_named_type, build_var}
use snuk.Parser.Var.{type_or_any, initial_value, snuk_var_parse, parse_type_body, parse_named_type}
use snuk.Parser.Whole.{calls_of}
use snuk.Parser.Statements
use snuk.Parser.Statements.{EndsItem, Annotation, Initial, Variable}
use snuk.Parser.Stream.{
  ◌▸◌, ahead, at_stream, last_of, append-in_front, is_wrong, advance_lem, match_yes, match_no,
  expect_yes,
}
use snuk.Parser.Pratt.{Derives-not_error}
use snuk.Parser.Complete.{expr_parse_lem}

pub record ItemEnd (t : TokenType) : Type 0 where
  pub low : precedence_of t ≡ 0
  pub right : same_type t Token.error ≡ false
  pub no_colon : same_type t Token.colon ≡ false
  pub no_assign : same_type t Token.assign ≡ false
  pub no_comma : same_type t Token.comma ≡ false

pub item_end_lem : {t : TokenType} → EndsItem t → ItemEnd t
unfolding same_type precedence_of
item_end_lem Statements.ends_semicolon = record {
  low = refl;
  right = refl;
  no_colon = refl;
  no_assign = refl;
  no_comma = refl;
}
item_end_lem Statements.ends_vsemicolon = record {
  low = refl;
  right = refl;
  no_colon = refl;
  no_assign = refl;
  no_comma = refl;
}
item_end_lem Statements.ends_eof = record {
  low = refl;
  right = refl;
  no_colon = refl;
  no_assign = refl;
  no_comma = refl;
}

module _ {F : Type 0} where
  pub at_item_end :
      (q : Parser F) (prev t : Token F) (s : ℕ → Token F) (ty : TokenType)
      → t.type ≡ ty
      → EndsItem ty
      → check_item_end (at_stream q prev (ahead t s)) ≡ true
  unfolding check_item_end same_type
  at_item_end q prev t s ty h Statements.ends_semicolon = rw h refl
  at_item_end q prev t s ty h Statements.ends_vsemicolon = rw h refl
  at_item_end q prev t s ty h Statements.ends_eof = rw h refl

  pub expect_item_end-lem :
      (q : Parser F) (prev t : Token F) (s : ℕ → Token F)
      → EndsItem t.type
      → is_wrong s ≡ false
      → parser_expect_item_end (at_stream q prev (ahead t s)) ≡ done tt (at_stream q t s)
  unfolding parser_expect_item_end parser_match_item_end
  expect_item_end-lem q prev t s h ok_next =
      rw (at_item_end q prev t s t.type refl h, advance_lem q prev (ahead t s) ok_next) refl

  -- The code that goes on with the type of the variable is `k`.
  annotation_lem :
      {A : Type 0} (ts : List (Token F)) (ty : SnukType)
      → Annotation ts ty
      → (n : ℕ) (q : Parser F) (prev : Token F) (s : ℕ → Token F) (k : SnukType → P F A)
      → is_wrong s ≡ false
      → same_type (s 0).type Token.colon ≡ false
      → bind
          (parser_match Token.colon (at_stream q prev (ts ▸ s)))
          (λ colon p. bind (type_or_any (calls_of (suc n)) colon p) k)
        ≡ k ty (at_stream q (last_of prev ts) s)
  unfolding calls_of parse_type_body parse_named_type same_type build_named_type
  annotation_lem ts ty Statements.annotation_none n q prev s k ok_next h =
      rw (match_no q prev s Token.colon h) refl
  annotation_lem ts ty (Statements.annotation_any c t hc ht) n q prev s k ok_next h =
      rw
        (
          match_yes q prev (ts ▸ s) Token.colon (rw hc refl) (rw ht refl),
          match_no q c ((t ∷ []) ▸ s) Token.kw_fn (rw ht refl),
          match_no q c ((t ∷ []) ▸ s) Token.kw_interface (rw ht refl),
          match_no q c ((t ∷ []) ▸ s) Token.kw_type (rw ht refl),
          match_yes q c ((t ∷ []) ▸ s) Token.kw_any (rw ht refl) ok_next,
        )
        refl
  annotation_lem ts ty (Statements.annotation_type c t hc ht) n q prev s k ok_next h =
      rw
        (
          match_yes q prev (ts ▸ s) Token.colon (rw hc refl) (rw ht refl),
          match_no q c ((t ∷ []) ▸ s) Token.kw_fn (rw ht refl),
          match_no q c ((t ∷ []) ▸ s) Token.kw_interface (rw ht refl),
          match_yes q c ((t ∷ []) ▸ s) Token.kw_type (rw ht refl) ok_next,
        )
        refl
  annotation_lem ts ty (Statements.annotation_name c t hc ht) n q prev s k ok_next h =
      rw
        (
          match_yes q prev (ts ▸ s) Token.colon (rw hc refl) (rw ht refl),
          match_no q c ((t ∷ []) ▸ s) Token.kw_fn (rw ht refl),
          match_no q c ((t ∷ []) ▸ s) Token.kw_interface (rw ht refl),
          match_no q c ((t ∷ []) ▸ s) Token.kw_type (rw ht refl),
          match_no q c ((t ∷ []) ▸ s) Token.kw_any (rw ht refl),
          expect_yes q c ((t ∷ []) ▸ s) Token.identifier "expected a type name" (rw ht refl)
              ok_next,
        )
        refl

  initial_lem :
      {A : Type 0} (ts : List (Token F)) (e : SnukExpr F)
      → Initial ts e
      → (n : ℕ) (q : Parser F) (prev t : Token F) (s : ℕ → Token F) (k : SnukExpr F → P F A)
      → length ts < n
      → EndsItem t.type
      → bind
          (parser_match Token.assign (at_stream q prev (ts ▸ (ahead t s))))
          (λ assign p. bind (initial_value (calls_of (suc n)) assign true p) k)
        ≡ k e (at_stream q (last_of prev ts) (ahead t s))
  unfolding same_type
  initial_lem ts e Statements.initial_none n q prev t s k lt h =
      rw (match_no q prev (ahead t s) Token.assign (item_end_lem h).no_assign) refl
  initial_lem us e (Statements.initial_some o ts e' ho d) n q prev t s k lt h =
      rw
        (
          match_yes q prev (us ▸ (ahead t s)) Token.assign (rw ho refl)
              (Derives-not_error d (ahead t s)),
          expr_parse_lem ts e d n q o (ahead t s) lt (item_end_lem h).low (item_end_lem h).right,
        )
        refl

  Initial-start :
      (ts : List (Token F)) (e : SnukExpr F)
      → Initial ts e
      → (t : Token F) (s : ℕ → Token F) → EndsItem t.type
      → (is_wrong (ts ▸ ahead t s) ≡ false)
        × (same_type ((ts ▸ ahead t s) 0).type Token.colon ≡ false)
  unfolding same_type
  Initial-start ts e Statements.initial_none t s h =
      ((item_end_lem h).right, (item_end_lem h).no_colon)
  Initial-start us e (Statements.initial_some o ts e' ho d) t s h = (rw ho refl, rw ho refl)

  Annotation-start :
      (ts : List (Token F)) (ty : SnukType)
      → Annotation ts ty
      → (s : ℕ → Token F) → is_wrong s ≡ false
      → is_wrong (ts ▸ s) ≡ false
  unfolding same_type
  Annotation-start ts ty Statements.annotation_none s h = h
  Annotation-start ts ty (Statements.annotation_any c t hc ht) s h = rw hc refl
  Annotation-start ts ty (Statements.annotation_type c t hc ht) s h = rw hc refl
  Annotation-start ts ty (Statements.annotation_name c t hc ht) s h = rw hc refl

  last_of-both :
      (prev : Token F) (ts us : List (Token F))
      → last_of prev (ts ++ us) ≡ last_of (last_of prev ts) us
  last_of-both prev [] us = refl
  last_of-both prev (t ∷ ts) us = last_of-both t ts us

  pub var_parse_lem :
      (ts : List (Token F)) (v : SnukVar F)
      → Variable ts v
      → (n : ℕ) (q : Parser F) (prev t : Token F) (s : ℕ → Token F) → length ts < n
      → EndsItem t.type
      → snuk_var_parse (calls_of (suc n)) true (at_stream q prev (ts ▸ (ahead t s)))
        ≡ done v (at_stream q (last_of prev ts) (ahead t s))
  unfolding snuk_var_parse build_var same_type
  var_parse_lem vs v (Statements.variable t ts us ty e ht a b) n q prev x s lt h =
      let (right, no_colon) = Initial-start us e b x s h in
      let size = length-append ts us in
      rw
        (
          append-in_front ts us (ahead x s),
          last_of-both t ts us,
          expect_yes q prev (t ∷ ts ▸ us ▸ ahead x s) Token.identifier "expected an identifier"
              (rw ht refl) (Annotation-start ts ty a (us ▸ ahead x s) right),
        )
        (annotation_lem ts ty a n q t (us ▸ ahead x s) (with_value (text_of t)) right no_colon
          ∙ initial_lem us e b n q (last_of t ts) x s
              (λ value. pure (build_var (text_of t) ty value)) (omega (arith, lt, size)) h)
    where
      with_value : StringView → SnukType → P F (SnukVar F)
      with_value name ty = parser_match Token.assign >>= λ assign.
          initial_value (calls_of (suc n)) assign true >>= λ value. pure (build_var name ty value)
