-- ===== src/Parser/Primaries.antt =====
-- src/parser/snuk_expr.c: atoms, groups, lists, calls and members are parsed.
use snuk.Prelude.{ℕ, suc, true, false, List, [], ◌∷◌, ◌++◌, length-append, ◌≡◌, refl, arith}
use snuk.Lexer.Token
use snuk.Lexer.Token.{TokenType, Token}
use snuk.Parser.Enum.{same_type}
use snuk.Parser.Rules
use snuk.Parser.Rules.{precedence_of, infix_rule, prefix_rule}
use snuk.Parser.Syntax
use snuk.Parser.Syntax.{SnukExpr, Exprs}
use snuk.Parser.State.{Parser, done, when_closed}
use snuk.Parser.Build.{
  build_bool_expr, build_string_literal_expr, build_identifier_expr, build_int_literal_expr,
  build_float_literal_expr,
}
use snuk.Parser.Expr.{primary_of, primary, grouping, list, call, member, infix_fn}
use snuk.Parser.Whole.{prefix_fn, calls_of}
use snuk.Parser.Grammar
use snuk.Parser.Grammar.{Atom, Derives, Sequence, name_expr}
use snuk.Parser.Stream.{
  ◌▸◌, at_stream, last_of, last_of-append, append-in_front, is_wrong, expect_yes,
}
use snuk.Parser.Steps.{Parses-prefix, present}
use snuk.Parser.Pratt.{Parsed, Parsed-called, Parsed-infix, Derives-not_error}
use snuk.Parser.Sequences.{Collected}

module _ {F : Type 0} where
  -- The rule of the token's type gives the expression.
  atom_lem :
      {ty : TokenType} {t : Token F} {e : SnukExpr F}
      → Atom ty t e
      → t.type ≡ ty
      → (n : ℕ) (q : Parser F) (s : ℕ → Token F)
      → (present (prefix_rule ty) ≡ true)
        × (prefix_fn (calls_of (suc n)) (prefix_rule ty) (at_stream q t s)
            ≡ done e (at_stream q t s))
  unfolding prefix_rule prefix_fn primary primary_of build_bool_expr build_string_literal_expr
      build_identifier_expr build_int_literal_expr build_float_literal_expr same_type
  atom_lem Grammar.atom_name h n q s = (refl, rw h refl)
  atom_lem (Grammar.atom_int e) h n q s = (refl, rw (h, e) refl)
  atom_lem (Grammar.atom_float e) h n q s = (refl, rw (h, e) refl)
  atom_lem Grammar.atom_string h n q s = (refl, rw h refl)
  atom_lem Grammar.atom_true h n q s = (refl, rw (h, h) refl)
  atom_lem Grammar.atom_false h n q s = (refl, rw (h, h) refl)
  atom_lem Grammar.atom_null h n q s = (refl, rw h refl)
  atom_lem Grammar.atom_self h n q s = (refl, refl)

  pub Parsed-Atom : (t : Token F) (e : SnukExpr F) → Atom t.type t e → Parsed 13 (t ∷ []) e
  Parsed-Atom t e a n precedence q prev s lt le f ok_next =
      let (is_present, run) = atom_lem a refl n q s in
      Parses-prefix n precedence q prev t [] e s ok_next is_present run

  -- A closing bracket is followed by no part of the expression in front of it.
  pub Parsed-group :
      (l r : Token F) (ts : List (Token F)) (e : SnukExpr F)
      → l.type ≡ Token.lparen
      → r.type ≡ Token.rparen
      → Derives 1 ts e
      → Parsed 1 ts e
      → Parsed 13 (l ∷ (ts ++ (r ∷ []))) e
  unfolding prefix_rule prefix_fn grouping calls_of precedence_of same_type
  Parsed-group l r ts e hl hr d ih n precedence q prev s lt le f ok_next =
      let size = length-append ts (r ∷ []) in
      let low : precedence_of r.type ≡ 0 = rw hr refl in
      let rule : prefix_rule l.type ≡ Rules.parse_grouping = rw hl refl in
      Parses-prefix n precedence q prev l (ts ++ (r ∷ [])) e s
        (rw (append-in_front ts (r ∷ []) s) (Derives-not_error d ((r ∷ []) ▸ s))) (rw rule refl)
        (rw
          (
            rule,
            append-in_front ts (r ∷ []) s,
            Parsed-called ih n 1 q l ((r ∷ []) ▸ s) (omega (arith, lt, size)) (omega arith)
                (record {
                  not_higher = omega (arith, low);
                  assigns = λ e. absurd (omega (arith, e, low));
                })
                (rw hr refl) (omega (arith, low)),
            expect_yes q (last_of l ts) ((r ∷ []) ▸ s) Token.rparen "expected ')'" (rw hr refl)
                ok_next,
            last_of-append l ts r [],
          )
          refl)

  pub Parsed-list :
      (l : Token F) (ts : List (Token F)) (es : Exprs F)
      → l.type ≡ Token.lbracket
      → ((s : ℕ → Token F) → is_wrong s ≡ false → is_wrong (ts ▸ s) ≡ false)
      → Collected Token.rbracket ts es
      → Parsed 13 (l ∷ ts) (Syntax.expr_list es)
  unfolding prefix_rule prefix_fn list calls_of when_closed
  Parsed-list l ts es h starts ih n precedence q prev s lt le f ok_next =
      let rule : prefix_rule l.type ≡ Rules.parse_list = rw h refl in
      let (run, closed) =
        ih n n q l s Syntax.no_exprs "expected ',' or ']' after list element" (omega (arith, lt))
          (omega (arith, lt)) ok_next in
      Parses-prefix n precedence q prev l ts (Syntax.expr_list es) s (starts s ok_next)
        (rw rule refl) (rw (rule, run, closed) refl)

  pub Parsed-call :
      (l : Token F) (fs ts : List (Token F)) (f : SnukExpr F) (es : Exprs F)
      → l.type ≡ Token.lparen
      → ((s : ℕ → Token F) → is_wrong s ≡ false → is_wrong (ts ▸ s) ≡ false)
      → Parsed 13 fs f
      → Collected Token.rparen ts es
      → Parsed 13 (fs ++ (l ∷ ts)) (Syntax.expr_call f es)
  unfolding infix_rule infix_fn call calls_of when_closed precedence_of same_type
  Parsed-call l fs ts f es h starts ihf ih =
      let level : precedence_of l.type ≡ 13 = rw h refl in
      let rule : infix_rule l.type ≡ Rules.parse_call = rw h refl in
      Parsed-infix 13 13 l fs ts f (Syntax.expr_call f es) (omega arith) (omega (arith, level))
        (record { not_higher = omega (arith, level); assigns = λ e. omega arith }) (rw h refl)
        starts ihf
        (λ n q s lt g ok_next.
          let (run, closed) =
            ih n n q l s Syntax.no_exprs "expected comma" lt (omega (arith, lt)) ok_next in
          rw (rule, run, closed) refl)

  pub Parsed-member :
      (d t : Token F) (ts : List (Token F)) (e : SnukExpr F)
      → d.type ≡ Token.dot
      → t.type ≡ Token.identifier
      → Parsed 13 ts e
      → Parsed 13 (ts ++ (d ∷ t ∷ [])) (Syntax.expr_member e (name_expr t))
  unfolding infix_rule infix_fn member primary primary_of build_identifier_expr calls_of
      precedence_of same_type
  Parsed-member d t ts e hd ht ih =
      let level : precedence_of d.type ≡ 13 = rw hd refl in
      let rule : infix_rule d.type ≡ Rules.parse_member = rw hd refl in
      Parsed-infix 13 13 d ts (t ∷ []) e (Syntax.expr_member e (name_expr t)) (omega arith)
        (omega (arith, level))
        (record { not_higher = omega (arith, level); assigns = λ e. omega arith }) (rw hd refl)
        (λ s h. rw ht refl) ih
        (λ n q s lt g ok_next.
          rw
            (
              rule,
              expect_yes q d ((t ∷ []) ▸ s) Token.identifier "expected a member" (rw ht refl)
                  ok_next,
              ht,
            )
            refl)
