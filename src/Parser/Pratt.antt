-- ===== src/Parser/Pratt.antt =====
-- src/parser/snuk_expr.c: the expressions of the grammar are parsed.
use snuk.Prelude.{
  ℕ, zero, suc, ◌+◌, ◌≤◌, ◌<◌, false, List, ◌∷◌, ◌++◌, length, length-append, ◌≡◌, refl, arith,
}
use snuk.Lexer.Token
use snuk.Lexer.Token.{TokenType, Token}
use snuk.Parser.Enum.{same_type}
use snuk.Parser.Rules
use snuk.Parser.Rules.{precedence_of, infix_rule, prefix_rule}
use snuk.Parser.Syntax
use snuk.Parser.Syntax.{SnukExpr, Exprs, push_expr}
use snuk.Parser.State.{Parser, done}
use snuk.Parser.Expr.{unary, binary, assignment, compound_assignment, infix_fn}
use snuk.Parser.Whole.{prefix_fn, precedence_body, calls_of}
use snuk.Parser.Grammar.{BinaryOp, UnaryOp, CompoundOp, Derives, name_expr}
use snuk.Parser.Stream.{◌▸◌, at_stream, last_of, is_wrong}
use snuk.Parser.Kinds.{unary_lem, binary_lem, compound_lem, no_unary_precedence, Derives-starts}
use snuk.Parser.Steps.{Follows, Follows-up, Parses, Parses-stops, Parses-prefix, Parses-infix}

module _ {F : Type 0} where
  -- The level `k` is parsed with every precedence up to it.
  abbrev pub Parsed : ℕ → List (Token F) → SnukExpr F → Type 0
  Parsed k ts e =
      (n precedence : ℕ) (q : Parser F) (prev : Token F) (s : ℕ → Token F)
      → length ts < n
      → precedence ≤ k
      → Follows k (s 0).type
      → is_wrong s ≡ false
      → Parses n precedence q prev ts e s

  -- A call that another function makes, which nothing continues.
  pub Parsed-called :
      {k : ℕ} {ts : List (Token F)} {e : SnukExpr F}
      → Parsed k ts e
      → (n precedence : ℕ) (q : Parser F) (prev : Token F) (s : ℕ → Token F) → suc (length ts) < n
      → precedence ≤ k
      → Follows k (s 0).type
      → is_wrong s ≡ false
      → precedence_of (s 0).type < precedence
      → precedence_body (calls_of n) precedence (at_stream q prev (ts ▸ s))
        ≡ done e (at_stream q (last_of prev ts) s)
  Parsed-called h zero precedence q prev s lt le f ok_next stop = absurd (omega (arith, lt))
  Parsed-called {k} {ts} {e} h (suc n) precedence q prev s lt le f ok_next stop =
      Parses-stops (h n precedence q prev s (omega (arith, lt)) le f ok_next) (omega (arith, lt))
        stop

  pub Parsed-up :
      {j k : ℕ} {ts : List (Token F)} {e : SnukExpr F} → k ≤ j → Parsed j ts e → Parsed k ts e
  Parsed-up le h n precedence q prev s lt le' f ok_next =
      h n precedence q prev s lt (omega (arith, le, le')) (Follows-up le f) ok_next

  pub Derives-not_error :
      {k : ℕ} {ts : List (Token F)} {e : SnukExpr F}
      → Derives k ts e
      → (s : ℕ → Token F) → is_wrong (ts ▸ s) ≡ false
  Derives-not_error d s = let h = Derives-starts d s in ground arith

  pub Parsed-unary :
      (o : Token F) (ts : List (Token F)) (e : SnukExpr F)
      → UnaryOp o.type
      → Derives 12 ts e
      → Parsed 12 ts e
      → Parsed 12 (o ∷ ts) (Syntax.expr_unary o.type e)
  unfolding prefix_fn unary calls_of
  Parsed-unary o ts e op d ih n precedence q prev s lt le f ok_next =
      let rule = (unary_lem op).1 in
      let lower = no_unary_precedence (s 0).type in
      Parses-prefix n precedence q prev o ts (Syntax.expr_unary o.type e) s (Derives-not_error d s)
        (rw rule refl)
        (rw
          (
            rule,
            Parsed-called ih n 12 q o s lt (omega arith) f ok_next (ground (arith, f.not_higher)),
          )
          refl)

  -- What the infix function of the operator `o` does with the tokens `us` behind it.
  abbrev pub Runs : ℕ → Token F → List (Token F) → SnukExpr F → SnukExpr F → Type 0
  Runs k o us l e =
      (n : ℕ) (q : Parser F) (s : ℕ → Token F)
      → suc (length us) < n
      → Follows k (s 0).type
      → is_wrong s ≡ false
      → infix_fn (calls_of (suc n)) (infix_rule o.type) l (at_stream q o (us ▸ s))
        ≡ done e (at_stream q (last_of o us) s)

  -- An operator of the level `k` behind an expression of a level `j`.
  pub Parsed-infix :
      (k j : ℕ) (o : Token F) (ls us : List (Token F)) (l e : SnukExpr F)
      → k ≤ j
      → k ≤ precedence_of o.type
      → Follows j o.type
      → same_type o.type Token.error ≡ false
      → ((s : ℕ → Token F) → is_wrong s ≡ false → is_wrong (us ▸ s) ≡ false)
      → Parsed j ls l
      → Runs k o us l e
      → Parsed k (ls ++ (o ∷ us)) e
  Parsed-infix k j o ls us l e low level f right starts ih run n precedence q prev s lt le g
        ok_next =
      let size = length-append ls (o ∷ us) in
      Parses-infix n precedence q prev o ls us l e s
        (ih n precedence q prev ((o ∷ us) ▸ s) (omega (arith, lt, size)) (omega (arith, le, low)) f
          right)
        lt (omega (arith, level, le)) (starts s ok_next)
        (run n q s (omega (arith, lt, size)) g ok_next)

  pub Parsed-binary :
      (k : ℕ) (o : Token F) (ls rs : List (Token F)) (l r : SnukExpr F)
      → BinaryOp k o.type
      → Derives (k + 1) rs r
      → Parsed k ls l
      → Parsed (k + 1) rs r
      → Parsed k (ls ++ (o ∷ rs)) (Syntax.expr_binary o.type l r)
  unfolding infix_fn binary calls_of
  Parsed-binary k o ls rs l r op d ihl ihr =
      let (right, level, rule, two) = binary_lem op in
      Parsed-infix k k o ls rs l (Syntax.expr_binary o.type l r) (omega arith)
        (omega (arith, level)) (record { not_higher = omega (arith, level); assigns = λ e. two })
        right (λ s h. Derives-not_error d s) ihl
        (λ n q s lt f ok_next.
          rw
            (
              rule,
              level,
              Parsed-called ihr n (k + 1) q o s lt (omega arith) (Follows-up (omega arith) f)
                  ok_next (omega (arith, f.not_higher)),
            )
            refl)

  -- The value of an assignment, behind which there is none.
  value_called :
      (o : Token F) (rs : List (Token F)) (r : SnukExpr F)
      → Parsed 1 rs r
      → (n : ℕ) (q : Parser F) (s : ℕ → Token F) → suc (length rs) < n
      → Follows 1 (s 0).type
      → is_wrong s ≡ false
      → precedence_body (calls_of n) 1 (at_stream q o (rs ▸ s))
        ≡ done r (at_stream q (last_of o rs) s)
  value_called o rs r ih n q s lt f ok_next =
      let a = f.assigns in
      let b = f.not_higher in Parsed-called ih n 1 q o s lt (omega arith) f ok_next (ground arith)

  pub Parsed-assign :
      (o : Token F) (ls rs : List (Token F)) (l r : SnukExpr F)
      → o.type ≡ Token.assign
      → Derives 1 rs r
      → Parsed 2 ls l
      → Parsed 1 rs r
      → Parsed 1 (ls ++ (o ∷ rs)) (Syntax.expr_assign l r)
  unfolding infix_fn assignment calls_of same_type precedence_of infix_rule
  Parsed-assign o ls rs l r op d ihl ihr =
      let level : precedence_of o.type ≡ 1 = rw op refl in
      let rule : infix_rule o.type ≡ Rules.parse_assignment = rw op refl in
      Parsed-infix 1 2 o ls rs l (Syntax.expr_assign l r) (omega arith) (omega (arith, level))
        (record { not_higher = omega (arith, level); assigns = λ e. omega arith }) (rw op refl)
        (λ s h. Derives-not_error d s) ihl
        (λ n q s lt f ok_next. rw (rule, value_called o rs r ihr n q s lt f ok_next) refl)

  pub Parsed-compound :
      (o t : Token F) (ls rs : List (Token F)) (r : SnukExpr F)
      → CompoundOp o.type
      → Derives 1 rs r
      → Parsed 2 ls (name_expr t)
      → Parsed 1 rs r
      → Parsed 1 (ls ++ (o ∷ rs)) (Syntax.expr_compound_assign o.type (name_expr t) r)
  unfolding infix_fn compound_assignment calls_of
  Parsed-compound o t ls rs r op d ihl ihr =
      let (right, level, rule) = compound_lem op in
      Parsed-infix 1 2 o ls rs (name_expr t) (Syntax.expr_compound_assign o.type (name_expr t) r)
        (omega arith) (omega (arith, level))
        (record { not_higher = omega (arith, level); assigns = λ e. omega arith }) right
        (λ s h. Derives-not_error d s) ihl
        (λ n q s lt f ok_next. rw (rule, value_called o rs r ihr n q s lt f ok_next) refl)
