-- ===== src/Parser/Prints.antt =====
-- src/parser/snuk_item.c: the loop over the expressions of a print item.
use snuk.Prelude.{
  ℕ, zero, suc, ◌<◌, false, List, ◌∷◌, length, length-append, ◌≡◌, refl, sym, ◌∙◌, arith, ap,
}
use snuk.Lexer.Token
use snuk.Lexer.Token.{TokenType, Token}
use snuk.Parser.Enum.{same_type}
use snuk.Parser.Rules.{precedence_of}
use snuk.Parser.Syntax
use snuk.Parser.Syntax.{SnukExpr, Exprs, push_expr}
use snuk.Parser.State.{Parser, P, done, ◌>>=◌}
use snuk.Parser.Build.{build_print_item}
use snuk.Parser.Calls.{snuk_expr_parse}
use snuk.Parser.Item.{print_more}
use snuk.Parser.Whole.{calls_of}
use snuk.Parser.Grammar
use snuk.Parser.Grammar.{Derives}
use snuk.Parser.Statements
use snuk.Parser.Statements.{EndsItem, Printed}
use snuk.Parser.Stream.{
  ◌▸◌, ahead, at_stream, last_of, last_of-append, append-in_front, is_wrong, match_yes, match_no,
}
use snuk.Parser.Pratt.{Derives-not_error}
use snuk.Parser.Sequences.{join, join-push, join-none}
use snuk.Parser.Complete.{expr_parse_lem}
use snuk.Parser.Variables.{item_end_lem}

module _ {F : Type 0} where
  -- No expression of the grammar is the null pointer.
  build_print-push :
      {k : ℕ} {ts : List (Token F)} {e : SnukExpr F} (es : Exprs F)
      → Derives k ts e
      → build_print_item es e ≡ push_expr es e
  unfolding build_print_item
  build_print-push es (Grammar.derives_atom t e a) = atom a
    where
      atom :
          {ty : TokenType} {e : SnukExpr F}
          → Grammar.Atom ty t e
          → build_print_item es e ≡ push_expr es e
      atom Grammar.atom_name = refl
      atom (Grammar.atom_int h) = refl
      atom (Grammar.atom_float h) = refl
      atom Grammar.atom_string = refl
      atom Grammar.atom_true = refl
      atom Grammar.atom_false = refl
      atom Grammar.atom_null = refl
      atom Grammar.atom_self = refl
  build_print-push es (Grammar.derives_group l r ts e h d h') = build_print-push es d
  build_print-push es (Grammar.derives_list l ts fs h d) = refl
  build_print-push es (Grammar.derives_call l ts us f fs d h ds) = refl
  build_print-push es (Grammar.derives_member d t ts e h hd ht) = refl
  build_print-push es (Grammar.derives_unary o ts e h d) = refl
  build_print-push es (Grammar.derives_binary k o ls rs l r d h d') = refl
  build_print-push es (Grammar.derives_assign o ls rs l r d h d') = refl
  build_print-push es (Grammar.derives_compound o t ls rs r d h d') = refl
  build_print-push es (Grammar.derives_up j k ts e le d) = build_print-push es d

  pub Printed-starts :
      {ts : List (Token F)} {es : Exprs F}
      → Printed ts es
      → (s : ℕ → Token F) → is_wrong (ts ▸ s) ≡ false
  Printed-starts (Statements.printed_last ts e d) s = Derives-not_error d s
  Printed-starts (Statements.printed_more t ts us e es d h p) s =
      rw (append-in_front ts (t ∷ us) s) (Derives-not_error d ((t ∷ us) ▸ s))

  -- The first expression and the loop.
  abbrev pub print_from : ℕ → ℕ → Exprs F → P F (Exprs F)
  print_from n r es = snuk_expr_parse (calls_of (suc n)) >>= λ e.
      print_more (calls_of (suc n)) r (build_print_item es e)

  pub print_from-lem :
      (ts : List (Token F)) (es : Exprs F)
      → Printed ts es
      → (n r : ℕ) (q : Parser F) (prev t : Token F) (s : ℕ → Token F) (acc : Exprs F)
      → suc (length ts) < n
      → length ts < r
      → EndsItem t.type
      → print_from n r acc (at_stream q prev (ts ▸ ahead t s))
        ≡ done (join acc es) (at_stream q (last_of prev ts) (ahead t s))
  unfolding print_more same_type precedence_of
  print_from-lem ts es p n zero q prev x s acc lt le h = absurd (omega (arith, le))
  print_from-lem us es (Statements.printed_last ts e d) n (suc r) q prev x s acc lt le h =
      let f = item_end_lem h in
      let p = at_stream q (last_of prev us) (ahead x s) in
      rw (expr_parse_lem us e d n q prev (ahead x s) lt f.low f.right) (
        ap (λ es. print_more (calls_of (suc n)) (suc r) es p) (build_print-push acc d)
        ∙ rw (match_no q (last_of prev us) (ahead x s) Token.comma f.no_comma) refl
        ∙ ap (λ es. done es p)
            (sym (join-none (push_expr acc e)) ∙ join-push acc e Syntax.no_exprs))
  print_from-lem vs es (Statements.printed_more t ts us e fs d c p) n (suc r) q prev x s acc lt le
        h =
      let size = length-append ts (t ∷ us) in
      let rest = (t ∷ us) ▸ ahead x s in
      rw
        (
          append-in_front ts (t ∷ us) (ahead x s),
          expr_parse_lem ts e d n q prev rest (omega (arith, lt, size)) (rw c refl) (rw c refl),
          last_of-append prev ts t us,
        )
        (ap (λ es. print_more (calls_of (suc n)) (suc r) es (at_stream q (last_of prev ts) rest))
            (build_print-push acc d)
          ∙ rw
              (match_yes q (last_of prev ts) rest Token.comma (rw c refl)
                (Printed-starts p (ahead x s)))
              refl
          ∙ print_from-lem us fs p n r q t x s (push_expr acc e) (omega (arith, lt, size))
              (omega (arith, le, size)) h
          ∙ ap (λ es. done es (at_stream q (last_of t us) (ahead x s))) (join-push acc e fs))
