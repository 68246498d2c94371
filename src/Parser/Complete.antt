-- ===== src/Parser/Complete.antt =====
-- src/parser/snuk_expr.c: `snuk_expr_parse` on the expressions of the grammar.
use snuk.Prelude.{
  ℕ, suc, ◌<◌, false, List, [], ◌∷◌, length, ◌≡◌, refl, sym, ◌∙◌, ap, arith, trap, wild,
}
use snuk.Lexer.Token
use snuk.Lexer.Token.{TokenType, Token}
use snuk.Parser.Enum.{same_type}
use snuk.Parser.Rules.{precedence_of}
use snuk.Parser.Syntax
use snuk.Parser.Syntax.{SnukExpr, Exprs}
use snuk.Parser.State.{Parser, Run, done, fault, out_of_rounds}
use snuk.Parser.Calls.{snuk_expr_parse}
use snuk.Parser.Start.{zero_token}
use snuk.Parser.Whole.{calls_of}
use snuk.Parser.Grammar
use snuk.Parser.Grammar.{Closing, Derives, Sequence}
use snuk.Parser.Stream.{◌▸◌, at_stream, last_of, append-in_front, is_wrong}
use snuk.Parser.Pratt.{
  Parsed, Parsed-called, Parsed-up, Parsed-unary, Parsed-binary, Parsed-assign, Parsed-compound,
  Derives-not_error,
}
use snuk.Parser.Sequences.{Collected, closing_lem, Collected-end, Collected-last, Collected-more}
use snuk.Parser.Primaries.{Parsed-Atom, Parsed-group, Parsed-list, Parsed-call, Parsed-member}

module _ {F : Type 0} where
  Sequence-not_error :
      {c : TokenType} {ts : List (Token F)} {es : Exprs F}
      → Closing c
      → Sequence c ts es
      → (s : ℕ → Token F) → is_wrong s ≡ false
      → is_wrong (ts ▸ s) ≡ false
  Sequence-not_error k (Grammar.sequence_end c t h) s ok_next = rw h (closing_lem k).right
  Sequence-not_error k (Grammar.sequence_last c t ts e d h) s ok_next =
      rw (append-in_front ts (t ∷ []) s) (Derives-not_error d ((t ∷ []) ▸ s))
  Sequence-not_error k (Grammar.sequence_more c t ts us e es d h ds) s ok_next =
      rw (append-in_front ts (t ∷ us) s) (Derives-not_error d ((t ∷ us) ▸ s))

  mutual
    Derives-Parsed : {k : ℕ} {ts : List (Token F)} {e : SnukExpr F} → Derives k ts e → Parsed k ts e
    Derives-Parsed (Grammar.derives_atom t e a) = Parsed-Atom t e a
    Derives-Parsed (Grammar.derives_group l r ts e h d h') =
        Parsed-group l r ts e h h' d (Derives-Parsed d)
    Derives-Parsed (Grammar.derives_list l ts es h d) =
        Parsed-list l ts es h (Sequence-not_error Grammar.closing_bracket d)
          (Sequence-Collected Grammar.closing_bracket d)
    Derives-Parsed (Grammar.derives_call l fs ts f es d h ds) =
        Parsed-call l fs ts f es h (Sequence-not_error Grammar.closing_paren ds) (Derives-Parsed d)
          (Sequence-Collected Grammar.closing_paren ds)
    Derives-Parsed (Grammar.derives_member d t ts e h hd ht) =
        Parsed-member d t ts e hd ht (Derives-Parsed h)
    Derives-Parsed (Grammar.derives_unary o ts e h d) = Parsed-unary o ts e h d (Derives-Parsed d)
    Derives-Parsed (Grammar.derives_binary k o ls rs l r d h d') =
        Parsed-binary k o ls rs l r h d' (Derives-Parsed d) (Derives-Parsed d')
    Derives-Parsed (Grammar.derives_assign o ls rs l r d h d') =
        Parsed-assign o ls rs l r h d' (Derives-Parsed d) (Derives-Parsed d')
    Derives-Parsed (Grammar.derives_compound o t ls rs r d h d') =
        Parsed-compound o t ls rs r h d' (Derives-Parsed d) (Derives-Parsed d')
    Derives-Parsed (Grammar.derives_up j k ts e le d) = Parsed-up le (Derives-Parsed d)

    Sequence-Collected :
        {c : TokenType} {ts : List (Token F)} {es : Exprs F}
        → Closing c
        → Sequence c ts es
        → Collected c ts es
    Sequence-Collected k (Grammar.sequence_end c t h) = Collected-end c t k h
    Sequence-Collected k (Grammar.sequence_last c t ts e d h) =
        Collected-last c t ts e k h d (Derives-Parsed d)
    Sequence-Collected k (Grammar.sequence_more c t ts us e es d h ds) =
        Collected-more c t ts us e es k h d (Derives-Parsed d) (Sequence-not_error k ds)
          (Sequence-Collected k ds)

  -- Where the tokens derive an expression in the grammar, and the token behind them is no operator
  -- and no error, snuk_expr_parse takes just these tokens, raises no error, and gives that
  -- expression, when it has more than two rounds more than there are tokens.
  pub expr_parse_lem :
      (ts : List (Token F)) (e : SnukExpr F)
      → Derives 1 ts e
      → (n : ℕ) (q : Parser F) (prev : Token F) (s : ℕ → Token F) → suc (length ts) < n
      → precedence_of (s 0).type ≡ 0
      → same_type (s 0).type Token.error ≡ false
      → snuk_expr_parse (calls_of (suc n)) (at_stream q prev (ts ▸ s))
        ≡ done e (at_stream q (last_of prev ts) s)
  unfolding calls_of
  expr_parse_lem ts e d n q prev s lt low ok_next =
      Parsed-called (Derives-Parsed d) n 1 q prev s lt (omega arith)
        (record { not_higher = omega (arith, low); assigns = λ e. absurd (omega (arith, e, low)) })
        ok_next (omega (arith, low))

  abbrev pub start : Parser F
  start = record {
    lexer = λ i. trap wild;
    previous = zero_token;
    current = zero_token;
    next = zero_token;
    panic_mode = false;
    err_msg = "";
    err_token = zero_token;
  }

  abbrev parsed : Run F (SnukExpr F) → SnukExpr F
  parsed (done e p) = e
  parsed (fault e) = Syntax.no_expr
  parsed out_of_rounds = Syntax.no_expr

  -- The tokens of an expression derive one expression only.
  pub Derives-unique :
      (ts : List (Token F)) (e f : SnukExpr F) → Derives 1 ts e → Derives 1 ts f → e ≡ f
  unfolding same_type precedence_of
  Derives-unique ts e f d d' =
      let parse : (e : SnukExpr F) → Derives 1 ts e → _ = λ e d.
        expr_parse_lem ts e d (suc (suc (length ts))) start zero_token (λ i. zero_token)
          (omega arith) refl refl in
      ap parsed (sym (parse e d) ∙ parse f d')
