-- ===== src/Parser/Steps.antt =====
-- src/parser/snuk_expr.c: what `parse_precedence` makes of the tokens of an expression with a prefix
-- function, and how it goes on with an operator behind.
use snuk.Prelude.{
  ℕ, zero, suc, ◌+◌, ◌≤◌, ◌<◌, Bool, true, false, leb, List, ◌∷◌, ◌++◌, length, length-append, ◌≡◌,
  refl, arith,
}
use snuk.Lexer.Token.{TokenType, Token}
use snuk.Parser.Rules
use snuk.Parser.Rules.{precedence_of, infix_rule, PrefixFn, prefix_rule}
use snuk.Parser.Syntax.{SnukExpr}
use snuk.Parser.State.{Parser, done, bind}
use snuk.Parser.Calls.{Calls}
use snuk.Parser.Expr.{infix_fn, infix_loop}
use snuk.Parser.Whole.{prefix_fn, precedence_from, precedence_body, calls_of}
use snuk.Parser.Stream.{
  ◌▸◌, behind, at_stream, last_of, last_of-append, append-in_front, is_wrong, advance_lem,
}

-- A token behind an expression of the level `k`: no operator of a higher level, and an assignment only
-- where the expression is none itself.
pub record Follows (k : ℕ) (t : TokenType) : Type 0 where
  pub not_higher : precedence_of t ≤ k
  pub assigns : precedence_of t ≡ 1 → 2 ≤ k

pub Follows-up : {j k : ℕ} {t : TokenType} → k ≤ j → Follows k t → Follows j t
Follows-up le h = record {
  not_higher = omega (arith, le, h.not_higher);
  assigns = λ e. omega (arith, le, h.assigns e);
}

abbrev pub present : PrefixFn → Bool
present Rules.no_prefix = false
present _ = true

module _ {F : Type 0} where
  -- The call with the tokens `ts` in front of it is in its loop behind them, with `e` on the left.
  pub record Parses (n precedence : ℕ) (q : Parser F) (prev : Token F) (ts : List (Token F))
      (e : SnukExpr F) (s : ℕ → Token F) : Type 0 where
    pub rounds : ℕ
    pub enough : n ≤ rounds + length ts
    pub goes :
        precedence_body (calls_of (suc n)) precedence (at_stream q prev (ts ▸ s))
        ≡ infix_loop (calls_of (suc n)) rounds precedence e (at_stream q (last_of prev ts) s)

  loop_stops :
      (c : Calls F) (m precedence : ℕ) (e : SnukExpr F) (q : Parser F) (prev : Token F)
      (s : ℕ → Token F)
      → 1 ≤ m
      → precedence_of (s 0).type < precedence
      → infix_loop c m precedence e (at_stream q prev s) ≡ done e (at_stream q prev s)
  unfolding infix_loop
  loop_stops c zero precedence e q prev s h lt = absurd (omega (arith, h))
  loop_stops c (suc m) precedence e q prev s h lt =
      let over : leb precedence (precedence_of (s 0).type) ≡ false = ground arith in rw over refl

  pub loop_goes :
      (c : Calls F) (m precedence : ℕ) (e : SnukExpr F) (q : Parser F) (prev : Token F)
      (s : ℕ → Token F)
      → precedence ≤ precedence_of (s 0).type
      → is_wrong (behind s) ≡ false
      → infix_loop c (suc m) precedence e (at_stream q prev s)
        ≡ bind
            (infix_fn c (infix_rule (s 0).type) e (at_stream q (s 0) (behind s)))
            (infix_loop c m precedence)
  unfolding infix_loop
  loop_goes c m precedence e q prev s le h =
      let more : leb precedence (precedence_of (s 0).type) ≡ true = ground arith in
      rw (more, advance_lem q prev s h) refl

  -- Where nothing can continue the expression, the call gives it.
  pub Parses-stops :
      {n precedence : ℕ} {q : Parser F} {prev : Token F} {ts : List (Token F)} {e : SnukExpr F}
      {s : ℕ → Token F}
      → (h : Parses n precedence q prev ts e s) → length ts < n
      → precedence_of (s 0).type < precedence
      → precedence_body (calls_of (suc n)) precedence (at_stream q prev (ts ▸ s))
        ≡ done e (at_stream q (last_of prev ts) s)
  Parses-stops {q = q} {prev} {ts} {e} {s} h lt stop =
      rw h.goes (loop_stops _ h.rounds _ e q (last_of prev ts) s (omega (arith, h.enough, lt)) stop)

  pub precedence_from-present :
      (c : Calls F) (precedence : ℕ) (pfn : PrefixFn) (p : Parser F)
      → present pfn ≡ true
      → precedence_from c precedence pfn p
        ≡ bind (prefix_fn c pfn p) (infix_loop c c.rounds precedence)
  unfolding precedence_from
  precedence_from-present c precedence Rules.parse_primary p h = refl
  precedence_from-present c precedence Rules.no_prefix p h = absurd (ground arith)
  precedence_from-present c precedence _ p h = refl

  -- A token with a prefix function, which takes the tokens behind it.
  pub Parses-prefix :
      (n precedence : ℕ) (q : Parser F) (prev t : Token F) (us : List (Token F)) (e : SnukExpr F)
      (s : ℕ → Token F)
      → is_wrong (us ▸ s) ≡ false
      → present (prefix_rule t.type) ≡ true
      → prefix_fn (calls_of (suc n)) (prefix_rule t.type) (at_stream q t (us ▸ s))
        ≡ done e (at_stream q (last_of t us) s)
      → Parses n precedence q prev (t ∷ us) e s
  unfolding precedence_body calls_of
  Parses-prefix n precedence q prev t us e s ok_next h run = record {
    rounds = n;
    enough = omega arith;
    goes =
        rw
          (
            advance_lem q prev (t ∷ us ▸ s) ok_next,
            precedence_from-present (calls_of (suc n)) precedence (prefix_rule t.type)
                (at_stream q t (us ▸ s)) h,
            run,
          )
          refl;
  }

  -- An operator behind an expression, which takes the tokens behind it.
  pub Parses-infix :
      (n precedence : ℕ) (q : Parser F) (prev t : Token F) (ls us : List (Token F))
      (l e : SnukExpr F) (s : ℕ → Token F)
      → Parses n precedence q prev ls l ((t ∷ us) ▸ s)
      → length (ls ++ (t ∷ us)) < n
      → precedence ≤ precedence_of t.type
      → is_wrong (us ▸ s) ≡ false
      → infix_fn (calls_of (suc n)) (infix_rule t.type) l (at_stream q t (us ▸ s))
        ≡ done e (at_stream q (last_of t us) s)
      → Parses n precedence q prev (ls ++ (t ∷ us)) e s
  Parses-infix n precedence q prev t ls us l e s h lt le ok_next run =
      goes_on h.rounds h.enough h.goes
    where
      goes_on :
          (m : ℕ)
          → n ≤ m + length ls
          → precedence_body (calls_of (suc n)) precedence (at_stream q prev (ls ▸ (t ∷ us) ▸ s))
            ≡ infix_loop
                (calls_of (suc n))
                m
                precedence
                l
                (at_stream q (last_of prev ls) ((t ∷ us) ▸ s))
          → Parses n precedence q prev (ls ++ (t ∷ us)) e s
      goes_on zero enough goes = absurd (omega (arith, lt, enough, length-append ls (t ∷ us)))
      goes_on (suc m) enough goes = record {
        rounds = m;
        enough = omega (arith, lt, enough, length-append ls (t ∷ us));
        goes =
            rw
              (
                append-in_front ls (t ∷ us) s,
                last_of-append prev ls t us,
                goes,
                loop_goes (calls_of (suc n)) m precedence l q (last_of prev ls) ((t ∷ us) ▸ s) le
                    ok_next,
                run,
              )
              refl;
      }
