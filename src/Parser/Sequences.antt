-- ===== src/Parser/Sequences.antt =====
-- src/parser/snuk_expr.c: the loops over the elements of a list and the arguments of a call.
use Prim.Native.String.{String}
use snuk.Prelude.{
  ℕ, zero, suc, ◌≤◌, ◌<◌, true, false, List, [], ◌∷◌, ◌++◌, length, length-append, ◌≡◌, refl, arith,
  ap, sym, ◌∙◌,
}
use snuk.Lexer.Token
use snuk.Lexer.Token.{TokenType, Token}
use snuk.Parser.Enum.{same_type}
use snuk.Parser.Rules.{precedence_of}
use snuk.Parser.Syntax
use snuk.Parser.Syntax.{SnukExpr, Exprs, push_expr}
use snuk.Parser.State.{Parser, done, bind, bind_assoc, pure, collect}
use snuk.Parser.Var.{comma_unless}
use snuk.Parser.Expr.{element}
use snuk.Parser.Whole.{calls_of}
use snuk.Parser.Grammar
use snuk.Parser.Grammar.{Closing, Derives}
use snuk.Parser.Stream.{
  ◌▸◌, at_stream, last_of, last_of-append, append-in_front, is_wrong, match_yes, match_no,
  expect_yes,
}
use snuk.Parser.Kinds.{ends, Derives-starts}
use snuk.Parser.Pratt.{Parsed, Parsed-called}

-- What the loops need of the closing bracket.
pub record Closes (c : TokenType) : Type 0 where
  pub low : precedence_of c ≡ 0
  pub itself : same_type c c ≡ true
  pub right : same_type c Token.error ≡ false
  pub no_comma : same_type Token.comma c ≡ false
  pub other : (t : TokenType) → ends t ≡ false → same_type t c ≡ false

pub closing_lem : {c : TokenType} → Closing c → Closes c
unfolding same_type precedence_of
closing_lem Grammar.closing_paren = record {
  low = refl;
  itself = refl;
  right = refl;
  no_comma = refl;
  other = λ t h. ground arith;
}
closing_lem Grammar.closing_bracket = record {
  low = refl;
  itself = refl;
  right = refl;
  no_comma = refl;
  other = λ t h. ground arith;
}

module _ {F : Type 0} where
  abbrev pub join : Exprs F → Exprs F → Exprs F
  join Syntax.no_exprs fs = fs
  join (Syntax.exprs e es) fs = Syntax.exprs e (join es fs)

  pub join-push :
      (es : Exprs F) (e : SnukExpr F) (fs : Exprs F)
      → join (push_expr es e) fs ≡ join es (Syntax.exprs e fs)
  unfolding push_expr
  join-push Syntax.no_exprs e fs = refl
  join-push (Syntax.exprs x es) e fs = ap (Syntax.exprs x) (join-push es e fs)

  pub join-none : (es : Exprs F) → join es Syntax.no_exprs ≡ es
  join-none Syntax.no_exprs = refl
  join-none (Syntax.exprs x es) = ap (Syntax.exprs x) (join-none es)

  -- The loop reads the tokens to the closing bracket, and adds the expressions to those it has.
  abbrev pub Collected : TokenType → List (Token F) → Exprs F → Type 0
  Collected c ts es =
      (n r : ℕ) (q : Parser F) (prev : Token F) (s : ℕ → Token F) (acc : Exprs F) (msg : String)
      → suc (length ts) < n
      → length ts < r
      → is_wrong s ≡ false
      → (collect r c (element (calls_of (suc n)) c msg) acc (at_stream q prev (ts ▸ s))
          ≡ done (join acc es) (at_stream q (last_of prev ts) s))
        × (same_type (last_of prev ts).type c ≡ true)

  -- One round: an expression, and what stands behind it.
  collect-element :
      (c : TokenType) (ts : List (Token F)) (e : SnukExpr F)
      → Closing c
      → Derives 1 ts e
      → Parsed 1 ts e
      → (n r : ℕ) (q : Parser F) (prev : Token F) (u : ℕ → Token F) (acc : Exprs F) (msg : String)
      → suc (length ts) < n
      → precedence_of (u 0).type ≡ 0
      → is_wrong u ≡ false
      → collect (suc r) c (element (calls_of (suc n)) c msg) acc (at_stream q prev (ts ▸ u))
        ≡ bind
            (comma_unless (calls_of (suc n)) c msg (at_stream q (last_of prev ts) u))
            (λ _. collect r c (element (calls_of (suc n)) c msg) (push_expr acc e))
  unfolding collect element calls_of comma_unless
  collect-element c ts e k d ih n r q prev u acc msg lt low ok_next =
      let head = Derives-starts d u in
      let not_end : same_type ((ts ▸ u) 0).type Token.eof ≡ false = ground arith in
      simp
        (
          match_no q prev (ts ▸ u) c ((closing_lem k).other ((ts ▸ u) 0).type head),
          not_end,
          Parsed-called ih n 1 q prev u lt (omega arith)
              (record {
                not_higher = omega (arith, low);
                assigns = λ e. absurd (omega (arith, e, low));
              })
              ok_next (omega (arith, low)),
        )
        (bind_assoc (comma_unless (calls_of (suc n)) c msg (at_stream q (last_of prev ts) u))
          (λ _. pure λ es. push_expr es e)
          (λ f. collect r c (element (calls_of (suc n)) c msg) (f acc)))

  collect_end :
      (c : TokenType) (t : Token F)
      → Closing c
      → t.type ≡ c
      → (n r : ℕ) (q : Parser F) (prev : Token F) (s : ℕ → Token F) (acc : Exprs F) (msg : String)
      → 1 ≤ r
      → is_wrong s ≡ false
      → collect r c (element (calls_of (suc n)) c msg) acc (at_stream q prev ((t ∷ []) ▸ s))
        ≡ done acc (at_stream q t s)
  unfolding collect
  collect_end c t k h n zero q prev s acc msg lt ok_next = absurd (omega (arith, lt))
  collect_end c t k h n (suc r) q prev s acc msg lt ok_next =
      simp (match_yes q prev ((t ∷ []) ▸ s) c (rw h (closing_lem k).itself) ok_next) refl

  pub Collected-end :
      (c : TokenType) (t : Token F) → Closing c → t.type ≡ c → Collected c (t ∷ []) Syntax.no_exprs
  Collected-end c t k h n r q prev s acc msg lt le ok_next = (
    rw (join-none acc) (collect_end c t k h n r q prev s acc msg (omega (arith, le)) ok_next),
    rw h (closing_lem k).itself,
  )

  pub Collected-last :
      (c : TokenType) (t : Token F) (ts : List (Token F)) (e : SnukExpr F)
      → Closing c
      → t.type ≡ c
      → Derives 1 ts e
      → Parsed 1 ts e
      → Collected c (ts ++ (t ∷ [])) (Syntax.exprs e Syntax.no_exprs)
  unfolding comma_unless
  Collected-last c t ts e k h d ih n zero q prev s acc msg lt le ok_next =
      absurd (omega (arith, le, length-append ts (t ∷ [])))
  Collected-last c t ts e k h d ih n (suc r) q prev s acc msg lt le ok_next =
      let size = length-append ts (t ∷ []) in
      let last : same_type t.type c ≡ true = rw h (closing_lem k).itself in
      (
        rw
            (
              append-in_front ts (t ∷ []) s,
              collect-element c ts e k d ih n r q prev ((t ∷ []) ▸ s) acc msg
                  (omega (arith, lt, size)) (rw h (closing_lem k).low) (rw h (closing_lem k).right),
              last,
              last_of-append prev ts t [],
              collect_end c t k h n r q (last_of prev ts) s (push_expr acc e) msg
                  (omega (arith, le, size)) ok_next,
            )
            (ap (λ es. done es (at_stream q t s))
              (sym (join-none (push_expr acc e)) ∙ join-push acc e Syntax.no_exprs)),
        rw (last_of-append prev ts t []) last,
      )

  pub Collected-more :
      (c : TokenType) (t : Token F) (ts us : List (Token F)) (e : SnukExpr F) (es : Exprs F)
      → Closing c
      → t.type ≡ Token.comma
      → Derives 1 ts e
      → Parsed 1 ts e
      → ((s : ℕ → Token F) → is_wrong s ≡ false → is_wrong (us ▸ s) ≡ false)
      → Collected c us es
      → Collected c (ts ++ (t ∷ us)) (Syntax.exprs e es)
  unfolding comma_unless same_type precedence_of
  Collected-more c t ts us e es k h d ih starts ihs n zero q prev s acc msg lt le ok_next =
      absurd (omega (arith, le, length-append ts (t ∷ us)))
  Collected-more c t ts us e es k h d ih starts ihs n (suc r) q prev s acc msg lt le ok_next =
      let size = length-append ts (t ∷ us) in
      let not_last : same_type t.type c ≡ false = rw h (closing_lem k).no_comma in
      let rest =
        ihs n r q t s (push_expr acc e) msg (omega (arith, lt, size)) (omega (arith, le, size))
          ok_next in
      (
        rw
            (
              append-in_front ts (t ∷ us) s,
              collect-element c ts e k d ih n r q prev ((t ∷ us) ▸ s) acc msg
                  (omega (arith, lt, size)) (rw h refl) (rw h refl),
              not_last,
              expect_yes q (last_of prev ts) ((t ∷ us) ▸ s) Token.comma msg (rw h refl)
                  (starts s ok_next),
              last_of-append prev ts t us,
              rest.0,
              join-push acc e es,
            )
            refl,
        rw (last_of-append prev ts t us) rest.1,
      )
