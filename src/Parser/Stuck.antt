-- ===== src/Parser/Stuck.antt =====
-- src/parser/snuk_expr.c: loops that a token in the wrong place keeps running, and expressions without
-- a node.
use Prim.Native.String.{String}
use snuk.Prelude.{
  ℕ, zero, suc, [], ◌∷◌, Bool, true, false, ◌||◌, ◌&&◌, not, ◌≡◌, refl, arith, if◌then◌else◌, wild,
  ◌∙◌,
}
use snuk.Lexer.Token
use snuk.Lexer.Token.{TokenType, Token}
use snuk.Types
use snuk.Types.{SnukType}
use snuk.Parser.Enum.{same_type}
use snuk.Parser.Rules.{prefix_rule}
use snuk.Parser.Syntax
use snuk.Parser.Syntax.{SnukExpr, SnukItem, Items, Vars, push_var}
use snuk.Parser.State.{
  Parser, P, done, text_of, fault, out_of_rounds, raise_error, parser_match, parser_expect, collect,
}
use snuk.Parser.Build.{build_var, build_fn_type}
use snuk.Parser.Calls.{Calls, snuk_expr_parse}
use snuk.Parser.Var.{snuk_var_parse, comma_unless}
use snuk.Parser.Expr.{primary, primary_of, compound_assignment, infix_fn}
use snuk.Parser.Block.{type_member, fn_param}
use snuk.Parser.Whole.{prefix_fn, precedence_body, calls_of}
use snuk.Parser.Grammar.{CompoundOp}
use snuk.Parser.Stream.{◌▸◌, at_stream, advance_lem}
use snuk.Parser.Kinds.{compound_lem}
use snuk.Parser.Steps.{loop_goes, precedence_from-present}

-- A token that is no member of a type, and does not end the members.
abbrev pub no_member : TokenType → Bool
no_member t =
    not (same_type t Token.rbrace)
    && not (same_type t Token.eof)
    && not (same_type t Token.kw_var)
    && not (same_type t Token.kw_const)
    && not (same_type t Token.kw_fn)
    && not (same_type t Token.kw_type)

-- A token that is no part of a parameter, and does not end the parameters.
abbrev pub no_param : TokenType → Bool
no_param t =
    not (same_type t Token.rparen)
    && not (same_type t Token.eof)
    && not (same_type t Token.identifier)
    && not (same_type t Token.colon)
    && not (same_type t Token.assign)
    && not (same_type t Token.comma)

member_runs_on :
    (t : TokenType)
    → no_member t ≡ true
    → (same_type t Token.rbrace ≡ false) × (same_type t Token.eof ≡ false)
member_runs_on t h = (ground arith, ground arith)

no_member-declares :
    (t : TokenType)
    → no_member t ≡ true
    → (same_type t Token.kw_var
        || same_type t Token.kw_const
        || same_type t Token.kw_fn
        || same_type t Token.kw_type)
      ≡ false
no_member-declares t h = ground arith

param_runs_on :
    (t : TokenType)
    → no_param t ≡ true
    → (same_type t Token.rparen ≡ false) × (same_type t Token.eof ≡ false)
param_runs_on t h = (ground arith, ground arith)

no_param-parts :
    (t : TokenType)
    → no_param t ≡ true
    → (same_type t Token.identifier ≡ false)
      × (same_type t Token.colon ≡ false)
      × (same_type t Token.assign ≡ false)
      × (same_type t Token.comma ≡ false)
no_param-parts t h = (ground arith, ground arith, ground arith, ground arith)

module _ {F : Type 0} where
  raise-current : (msg : String) (p : Parser F) → (raise_error msg p).current ≡ p.current
  unfolding raise_error
  raise-current msg p =
      elim p.panic_mode
        as (λ b.
          (if b
            then p
            else record p { panic_mode = true; err_msg = msg; err_token = p.current }).current
          ≡ p.current) [ true ↦ refl | false ↦ refl ]

  -- A body that leaves the current token where it is.
  abbrev Stays : {A : Type 0} → (Token F → Bool) → P F (A → A) → Type 0
  Stays {A} ok body =
      (p : Parser F)
      → ok p.current ≡ true
      → (f : A → A) × (p' : Parser F) × (body p ≡ done f p') × (p'.current ≡ p.current)

  collect-Stays :
      {A : Type 0} (close : TokenType) (ok : Token F → Bool) (body : P F (A → A))
      → ((t : Token F)
          → ok t ≡ true
          → (same_type t.type close ≡ false) × (same_type t.type Token.eof ≡ false))
      → Stays ok body
      → (rounds : ℕ) (a : A) (p : Parser F) → ok p.current ≡ true
      → collect rounds close body a p ≡ out_of_rounds
  unfolding collect parser_match
  collect-Stays close ok body runs_on stays zero a p h = refl
  collect-Stays close ok body runs_on stays (suc rounds) a p h =
      let (no_close, no_eof) = runs_on p.current h in
      let (f, p', run, same) = stays p h in
      rw (no_close, no_eof, run)
        (collect-Stays close ok body runs_on stays rounds (f a) p' (rw same h))

  match_no_move :
      (c : TokenType) (p : Parser F)
      → same_type p.current.type c ≡ false
      → parser_match c p ≡ done false p
  unfolding parser_match
  match_no_move c p h = rw h refl

  expect_no_move :
      (c : TokenType) (msg : String) (p : Parser F)
      → same_type p.current.type c ≡ false
      → parser_expect c msg p ≡ done tt (raise_error msg p)
  unfolding parser_expect
  expect_no_move c msg p h = rw (match_no_move c p h) refl

  -- A token in the braces of a type or of an extension that begins no declaration is never taken:
  -- the loop over the members does not end within any number of rounds.
  pub type_members-stuck :
      (calls : Calls F) (push : Items F → SnukItem F → Items F) (rounds : ℕ) (is : Items F)
      (p : Parser F)
      → no_member p.current.type ≡ true
      → collect rounds Token.rbrace (type_member calls push) is p ≡ out_of_rounds
  unfolding type_member
  type_members-stuck calls push rounds is p h =
      collect-Stays Token.rbrace (λ t. no_member t.type) (type_member calls push)
        (λ t. member_runs_on t.type)
        (λ p h. (
          λ is. is,
          raise_error "unexpected token" p,
          rw (no_member-declares p.current.type h) refl,
          raise-current "unexpected token" p,
        ))
        rounds is p h

  fn_param-stays :
      (calls : Calls F) (p : Parser F)
      → no_param p.current.type ≡ true
      → (f : Vars F × SnukType → Vars F × SnukType) × (p' : Parser F) × (fn_param calls p
          ≡ done f p')
        × (p'.current ≡ p.current)
  unfolding fn_param snuk_var_parse comma_unless build_var
  fn_param-stays calls p h =
      let (no_name, no_colon, no_assign, no_comma) = no_param-parts p.current.type h in
      let (no_close, no_eof) = param_runs_on p.current.type h in
      let p' = raise_error "expected an identifier" p in
      let same = raise-current "expected an identifier" p in
      let no_close' : same_type p'.current.type Token.rparen ≡ false = rw same no_close in
      (
        λ r. (
          push_var (r.0) (build_var (text_of p'.previous) Types.type_any Syntax.no_expr),
          build_fn_type (r.1) Types.type_any Types.no_type,
        ),
        raise_error "expected comma" p',
        rw
            (
              expect_no_move Token.identifier "expected an identifier" p no_name,
              match_no_move Token.colon p' (rw same no_colon),
              match_no_move Token.assign p' (rw same no_assign),
              no_close',
              expect_no_move Token.comma "expected comma" p' (rw same no_comma),
            )
            refl,
        raise-current "expected comma" p' ∙ same,
      )

  -- A token among the parameters of a function that begins no parameter is never taken: the loop over
  -- the parameters does not end within any number of rounds.
  fn_params-stuck :
      (calls : Calls F) (rounds : ℕ) (r : Vars F × SnukType) (p : Parser F)
      → no_param p.current.type ≡ true
      → collect rounds Token.rparen (fn_param calls) r p ≡ out_of_rounds
  fn_params-stuck calls rounds r p h =
      collect-Stays Token.rparen (λ t. no_param t.type) (fn_param calls) (λ t. param_runs_on t.type)
        (fn_param-stays calls) rounds r p h

  -- A compound assignment to nan, with a token behind it that is no error, reads the type of an
  -- expression that is the null pointer, when the parser has at least three rounds.
  pub nan_assign-wild :
      (n : ℕ) (q : Parser F) (prev t o : Token F) (s : ℕ → Token F)
      → t.type ≡ Token.kw_nan
      → CompoundOp o.type
      → same_type (s 0).type Token.error ≡ false
      → snuk_expr_parse (calls_of (suc (suc (suc n)))) (at_stream q prev ((t ∷ o ∷ []) ▸ s))
        ≡ fault wild
  unfolding calls_of precedence_body prefix_fn prefix_rule primary primary_of infix_fn
      compound_assignment
  nan_assign-wild n q prev t o s h op ok_next =
      let (right, level, rule) = compound_lem op in
      let us = (o ∷ []) ▸ s in
      let p = at_stream q t us in
      let run : prefix_fn (calls_of (suc (suc n))) (prefix_rule t.type) p ≡ done Syntax.no_expr p =
        rw h refl in
      rw
        (
          advance_lem q prev ((t ∷ o ∷ []) ▸ s) right,
          precedence_from-present (calls_of (suc (suc n))) 1 (prefix_rule t.type) p (rw h refl),
          run,
          loop_goes (calls_of (suc (suc n))) n 1 Syntax.no_expr q t us (omega (arith, level))
              ok_next,
          rule,
        )
        refl
