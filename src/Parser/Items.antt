-- ===== src/Parser/Items.antt =====
-- src/parser/snuk_item.c and src/parser/parser.c: the items of the grammar are parsed.
use snuk.Prelude.{ℕ, suc, ◌<◌, Bool, true, false, List, ◌∷◌, length, ◌≡◌, refl, arith, ap, sym, ◌∙◌}
use snuk.Lexer.Token
use snuk.Lexer.Token.{TokenType, Token}
use snuk.Parser.Enum.{same_type}
use snuk.Parser.Syntax
use snuk.Parser.Syntax.{SnukExpr, SnukItem, SnukVar, Exprs}
use snuk.Parser.State.{Parser, done, bind_assoc, ◌>>◌, pure, parser_match, parser_expect_item_end}
use snuk.Parser.Build.{build_print_item}
use snuk.Parser.Calls.{Calls, snuk_expr_parse}
use snuk.Parser.Item.{
  decl_item, print_more, match_or, item_body, parse_expr_item, parse_decl_item, parse_flow_item,
  parse_print_item,
}
use snuk.Parser.Whole.{calls_of}
use snuk.Parser.Grammar.{Derives}
use snuk.Parser.Statements
use snuk.Parser.Statements.{EndsItem, Jump, Variable, Printed, Statement, jump_item}
use snuk.Parser.Stream.{◌▸◌, ahead, at_stream, last_of, is_wrong, match_yes, match_no}
use snuk.Parser.Kinds.{is_keyword, ends-is_keyword, Derives-starts}
use snuk.Parser.Complete.{expr_parse_lem}
use snuk.Parser.Variables.{item_end_lem, expect_item_end-lem, var_parse_lem}
use snuk.Parser.Prints.{Printed-starts, print_from-lem}

module _ {F : Type 0} where
  no_keyword :
      (q : Parser F) (prev : Token F) (s : ℕ → Token F) (n : ℕ)
      → is_keyword (s 0).type ≡ false
      → item_body (calls_of (suc n)) (at_stream q prev s)
        ≡ parse_expr_item (calls_of (suc n)) (at_stream q prev s)
  unfolding item_body
  no_keyword q prev s n h =
      let no : (t : TokenType) → same_type (s 0).type t ≡ false → _ = match_no q prev s in
      simp
        (
          no Token.kw_var (ground arith),
          no Token.kw_const (ground arith),
          no Token.kw_return (ground arith),
          no Token.kw_continue (ground arith),
          no Token.kw_break (ground arith),
          no Token.kw_print (ground arith),
          no Token.kw_extend (ground arith),
          no Token.kw_interface (ground arith),
        )
        refl

  -- `item_body` reads the tokens `ts`, and the token behind them that ends the item.
  abbrev pub Read : List (Token F) → SnukItem F → Type 0
  Read ts i =
      (n : ℕ) (q : Parser F) (prev t : Token F) (s : ℕ → Token F)
      → suc (length ts) < n
      → EndsItem t.type
      → is_wrong s ≡ false
      → item_body (calls_of (suc n)) (at_stream q prev (ts ▸ ahead t s)) ≡ done i (at_stream q t s)

  pub Read-expr :
      (ts : List (Token F)) (e : SnukExpr F) → Derives 1 ts e → Read ts (Syntax.item_expr e)
  unfolding parse_expr_item
  Read-expr ts e d n q prev t s lt h ok_next =
      let f = item_end_lem h in
      let head = Derives-starts d (ahead t s) in
      rw
        (
          no_keyword q prev (ts ▸ ahead t s) n (ends-is_keyword ((ts ▸ ahead t s) 0).type head),
          expr_parse_lem ts e d n q prev (ahead t s) lt f.low f.right,
          expect_item_end-lem q (last_of prev ts) t s h ok_next,
        )
        refl

  Variable-starts :
      (ts : List (Token F)) (v : SnukVar F)
      → Variable ts v
      → (s : ℕ → Token F) → is_wrong (ts ▸ s) ≡ false
  unfolding same_type
  Variable-starts vs v (Statements.variable t ts us ty e h a b) s = rw h refl

  -- What `snuk_item_parse` calls behind the keyword that it has taken.
  item_body-decl :
      (c : Calls F) (p p' : Parser F)
      → match_or Token.kw_var (parser_match Token.kw_const) p ≡ done true p'
      → item_body c p ≡ parse_decl_item c (same_type p'.previous.type Token.kw_const) p'
  unfolding item_body
  item_body-decl c p p' h = rw h refl

  pub item_body-flow :
      (c : Calls F) (p p' : Parser F)
      → match_or Token.kw_var (parser_match Token.kw_const) p ≡ done false p
      → match_or Token.kw_return (match_or Token.kw_continue (parser_match Token.kw_break)) p
        ≡ done true p'
      → item_body c p ≡ parse_flow_item c p'
  unfolding item_body
  item_body-flow c p p' h h' = rw (h, h') refl

  item_body-print :
      (c : Calls F) (p p' : Parser F)
      → match_or Token.kw_var (parser_match Token.kw_const) p ≡ done false p
      → match_or Token.kw_return (match_or Token.kw_continue (parser_match Token.kw_break)) p
        ≡ done false p
      → parser_match Token.kw_print p ≡ done true p'
      → item_body c p ≡ parse_print_item c p'
  unfolding item_body
  item_body-print c p p' h h' h'' = rw (h, h', h'') refl

  decl_lem :
      (is_const : Bool) (o : Token F) (ts : List (Token F)) (v : SnukVar F)
      → Variable ts v
      → (n : ℕ) (q : Parser F) (t : Token F) (s : ℕ → Token F) → length ts < n
      → EndsItem t.type
      → is_wrong s ≡ false
      → parse_decl_item (calls_of (suc n)) is_const (at_stream q o (ts ▸ ahead t s))
        ≡ done (decl_item (calls_of (suc n)) v is_const) (at_stream q t s)
  unfolding parse_decl_item
  decl_lem is_const o ts v a n q t s lt h ok_next =
      rw (var_parse_lem ts v a n q o t s lt h, expect_item_end-lem q (last_of o ts) t s h ok_next)
        refl

  pub Read-var :
      (o : Token F) (ts : List (Token F)) (v : SnukVar F)
      → o.type ≡ Token.kw_var
      → Variable ts v
      → Read (o ∷ ts) (Syntax.item_var_decl v)
  unfolding same_type
  Read-var o ts v e a n q prev t s lt h ok_next =
      let us = (o ∷ ts) ▸ ahead t s in
      let p = at_stream q o (ts ▸ ahead t s) in
      item_body-decl (calls_of (suc n)) (at_stream q prev us) p (
        rw (match_yes q prev us Token.kw_var (rw e refl) (Variable-starts ts v a (ahead t s))) refl)
      ∙ ap (λ b. parse_decl_item (calls_of (suc n)) b p) (rw e refl)
      ∙ decl_lem false o ts v a n q t s (omega (arith, lt)) h ok_next

  pub Read-const :
      (o : Token F) (ts : List (Token F)) (v : SnukVar F)
      → o.type ≡ Token.kw_const
      → Variable ts v
      → Read (o ∷ ts) (Syntax.item_const_decl v)
  unfolding same_type
  Read-const o ts v e a n q prev t s lt h ok_next =
      let us = (o ∷ ts) ▸ ahead t s in
      let p = at_stream q o (ts ▸ ahead t s) in
      item_body-decl (calls_of (suc n)) (at_stream q prev us) p (
        rw
          (
            match_no q prev us Token.kw_var (rw e refl),
            match_yes q prev us Token.kw_const (rw e refl) (Variable-starts ts v a (ahead t s)),
          )
          refl)
      ∙ ap (λ b. parse_decl_item (calls_of (suc n)) b p) (rw e refl)
      ∙ decl_lem true o ts v a n q t s (omega (arith, lt)) h ok_next

  pub Read-print :
      (o : Token F) (ts : List (Token F)) (es : Exprs F)
      → o.type ≡ Token.kw_print
      → Printed ts es
      → Read (o ∷ ts) (Syntax.item_print es)
  unfolding same_type parse_print_item calls_of
  Read-print o ts es e a n q prev t s lt h ok_next =
      let us = (o ∷ ts) ▸ ahead t s in
      let p = at_stream q o (ts ▸ ahead t s) in
      let no : (ty : TokenType) → same_type o.type ty ≡ false → _ = match_no q prev us in
      item_body-print (calls_of (suc n)) (at_stream q prev us) p
        (rw (no Token.kw_var (rw e refl), no Token.kw_const (rw e refl)) refl)
        (rw
          (
            no Token.kw_return (rw e refl),
            no Token.kw_continue (rw e refl),
            no Token.kw_break (rw e refl),
          )
          refl)
        (match_yes q prev us Token.kw_print (rw e refl) (Printed-starts a (ahead t s)))
      ∙ sym (
          bind_assoc (snuk_expr_parse (calls_of (suc n)) p)
            (λ e. print_more (calls_of (suc n)) n (build_print_item Syntax.no_exprs e))
            (λ es. parser_expect_item_end >> pure (Syntax.item_print es)))
      ∙ rw
          (
            print_from-lem ts es a n n q o t s Syntax.no_exprs (omega (arith, lt))
                (omega (arith, lt)) h,
            expect_item_end-lem q (last_of o ts) t s h ok_next,
          )
          refl
