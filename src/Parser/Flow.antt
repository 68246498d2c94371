-- ===== src/Parser/Flow.antt =====
-- src/parser/snuk_item.c: items that begin with `return`, `break` or `continue`.
use snuk.Prelude.{ℕ, suc, ◌<◌, Bool, true, false, not, List, length, ◌≡◌, refl, ap₂, ◌∙◌}
use snuk.Lexer.Token
use snuk.Lexer.Token.{TokenType, Token}
use snuk.Parser.Enum.{same_type}
use snuk.Parser.Syntax
use snuk.Parser.Syntax.{SnukExpr, SnukItem, SnukVar, Exprs}
use snuk.Parser.State.{
  Parser, P, done, ◌>>=◌, ◌>>◌, parser_match, parser_expect_item_end, check_item_end,
}
use snuk.Parser.Build.{build_flow_item}
use snuk.Parser.Item.{flow_value, has_value, match_or, item_body, parse_flow_item}
use snuk.Parser.Whole.{calls_of}
use snuk.Parser.Grammar.{Derives}
use snuk.Parser.Statements
use snuk.Parser.Statements.{EndsItem, Jump, Variable, Printed, Statement, jump_item}
use snuk.Parser.Stream.{◌▸◌, ahead, at_stream, last_of, is_wrong, match_yes, match_no}
use snuk.Parser.Kinds.{ends-item_end, Derives-starts}
use snuk.Parser.Complete.{expr_parse_lem}
use snuk.Parser.Variables.{item_end_lem, at_item_end, expect_item_end-lem}
use snuk.Parser.Items.{item_body-flow}

module _ {F : Type 0} where
  -- `parse_flow_item`, and the keyword in front of it.
  no_decl :
      (q : Parser F) (prev : Token F) (us : ℕ → Token F)
      → same_type (us 0).type Token.kw_var ≡ false
      → same_type (us 0).type Token.kw_const ≡ false
      → match_or Token.kw_var (parser_match Token.kw_const) (at_stream q prev us)
        ≡ done false (at_stream q prev us)
  no_decl q prev us h h' =
      rw (match_no q prev us Token.kw_var h, match_no q prev us Token.kw_const h') refl

  Derives-check_item_end :
      (q : Parser F) (prev : Token F) (ts : List (Token F)) (e : SnukExpr F)
      → Derives 1 ts e
      → (s : ℕ → Token F) → check_item_end (at_stream q prev (ts ▸ s)) ≡ false
  unfolding check_item_end
  Derives-check_item_end q prev ts e d s = ends-item_end ((ts ▸ s) 0).type (Derives-starts d s)

  pub jump_body :
      (ty : TokenType) (o : Token F)
      → Jump ty
      → o.type ≡ ty
      → (n : ℕ) (q : Parser F) (prev : Token F) (us : ℕ → Token F) → is_wrong us ≡ false
      → item_body (calls_of (suc n)) (at_stream q prev (ahead o us))
        ≡ parse_flow_item (calls_of (suc n)) (at_stream q o us)
  unfolding same_type
  jump_body ty o Statements.jump_return e n q prev us ok_next =
      item_body-flow (calls_of (suc n)) (at_stream q prev (ahead o us)) (at_stream q o us)
        (no_decl q prev (ahead o us) (rw e refl) (rw e refl))
        (rw (match_yes q prev (ahead o us) Token.kw_return (rw e refl) ok_next) refl)
  jump_body ty o Statements.jump_break e n q prev us ok_next =
      item_body-flow (calls_of (suc n)) (at_stream q prev (ahead o us)) (at_stream q o us)
        (no_decl q prev (ahead o us) (rw e refl) (rw e refl))
        (rw
          (
            match_no q prev (ahead o us) Token.kw_return (rw e refl),
            match_no q prev (ahead o us) Token.kw_continue (rw e refl),
            match_yes q prev (ahead o us) Token.kw_break (rw e refl) ok_next,
          )
          refl)

  -- `parse_flow_item` behind its tests.
  abbrev flow_from : ℕ → TokenType → Bool → P F (SnukItem F)
  flow_from n ty more = flow_value (calls_of (suc n)) more >>= λ value.
      parser_expect_item_end >> build_flow_item ty value

  flow_item_from :
      (ty : TokenType) (ended : Bool) (p : Parser F)
      → Jump ty
      → p.previous.type ≡ ty
      → check_item_end p ≡ ended
      → (n : ℕ) → parse_flow_item (calls_of (suc n)) p ≡ flow_from n ty (not ended) p
  unfolding parse_flow_item same_type
  flow_item_from ty ended p Statements.jump_return e h n =
      ap₂ (λ ty more. flow_from n ty more p) e (rw (e, h) refl)
  flow_item_from ty ended p Statements.jump_break e h n =
      ap₂ (λ ty more. flow_from n ty more p) e (rw (e, h) refl)

  build_jump :
      (ty : TokenType) (j : Jump ty) (e : SnukExpr F) (p : Parser F)
      → build_flow_item ty e p ≡ done (jump_item j e) p
  unfolding build_flow_item
  build_jump ty Statements.jump_return e p = refl
  build_jump ty Statements.jump_break e p = refl

  pub jump_end :
      (ty : TokenType) (o : Token F) (j : Jump ty)
      → o.type ≡ ty
      → (n : ℕ) (q : Parser F) (t : Token F) (s : ℕ → Token F) → EndsItem t.type
      → is_wrong s ≡ false
      → parse_flow_item (calls_of (suc n)) (at_stream q o (ahead t s))
        ≡ done (jump_item j Syntax.no_expr) (at_stream q t s)
  jump_end ty o j e n q t s h ok_next =
      flow_item_from ty true (at_stream q o (ahead t s)) j e (at_item_end q o t s t.type refl h) n
      ∙ rw (expect_item_end-lem q o t s h ok_next)
          (build_jump ty j Syntax.no_expr (at_stream q t s))

  pub jump_value :
      (ty : TokenType) (o : Token F) (j : Jump ty) (ts : List (Token F)) (e : SnukExpr F)
      → o.type ≡ ty
      → Derives 1 ts e
      → (n : ℕ) (q : Parser F) (t : Token F) (s : ℕ → Token F) → suc (length ts) < n
      → EndsItem t.type
      → is_wrong s ≡ false
      → parse_flow_item (calls_of (suc n)) (at_stream q o (ts ▸ ahead t s))
        ≡ done (jump_item j e) (at_stream q t s)
  jump_value ty o j ts e h d n q t s lt k ok_next =
      let f = item_end_lem k in
      flow_item_from ty false (at_stream q o (ts ▸ ahead t s)) j h
        (Derives-check_item_end q o ts e d (ahead t s)) n
      ∙ rw
          (
            expr_parse_lem ts e d n q o (ahead t s) lt f.low f.right,
            expect_item_end-lem q (last_of o ts) t s k ok_next,
          )
          (build_jump ty j e (at_stream q t s))

  pub continue_lem :
      (o : Token F)
      → o.type ≡ Token.kw_continue
      → (n : ℕ) (q : Parser F) (prev t : Token F) (s : ℕ → Token F) → EndsItem t.type
      → is_wrong s ≡ false
      → item_body (calls_of (suc n)) (at_stream q prev (ahead o (ahead t s)))
        ≡ done Syntax.item_continue (at_stream q t s)
  unfolding same_type parse_flow_item build_flow_item
  continue_lem o e n q prev t s h ok_next =
      let us = ahead t s in
      let p = at_stream q o us in
      let no_value : has_value (calls_of (suc n)) p ≡ false = rw e refl in
      item_body-flow (calls_of (suc n)) (at_stream q prev (ahead o us)) p
        (no_decl q prev (ahead o us) (rw e refl) (rw e refl))
        (rw
          (
            match_no q prev (ahead o us) Token.kw_return (rw e refl),
            match_yes q prev (ahead o us) Token.kw_continue (rw e refl) (item_end_lem h).right,
          )
          refl)
      ∙ ap₂ (λ ty more. continues ty more p) e no_value
      ∙ rw (expect_item_end-lem q o t s h ok_next) refl
    where
      continues : TokenType → Bool → P F (SnukItem F)
      continues ty more = flow_value (calls_of (suc n)) more >>= λ value.
          parser_expect_item_end >> build_flow_item ty value
