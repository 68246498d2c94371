-- ===== src/Parser/Var.antt =====
-- src/parser/snuk_var.c and src/parser/snuk_type.c: variables, and the types of annotations.
use Prim.Native.String.{String}
use snuk.Prelude.{ℕ, zero, suc, Bool, true, false}
use snuk.Lexer.Token
use snuk.Types
use snuk.Types.{SnukType}
use snuk.Parser.Syntax
use snuk.Parser.Syntax.{SnukExpr, SnukVar}
use snuk.Parser.State.{
  P, out_of_rounds, ◌>>=◌, ◌>>◌, pure, ask, parser_error, parser_check, parser_match, parser_expect,
  parser_expect_item_end, collect, when_closed, text_of,
}
use snuk.Parser.Build.{build_fn_type, build_named_type, build_interface_type, build_var}
use snuk.Parser.Calls.{Calls, snuk_expr_parse}

module _ {F : Type 0} (calls : Calls F) where
  abbrev value_of : SnukVar F → SnukExpr F
  value_of (Syntax.snuk_var name t value) = value

  -- `? : null`, the type behind a colon or an arrow
  abbrev pub type_or_any : Bool → P F SnukType
  type_or_any true = calls.snuk_type_parse
  type_or_any false = pure Types.type_any

  abbrev pub initial_value : Bool → Bool → P F (SnukExpr F)
  initial_value true default_null = snuk_expr_parse calls
  initial_value false true = pure Syntax.expr_null
  initial_value false false = pure Syntax.no_expr

  unfoldable pub snuk_var_parse : Bool → P F (SnukVar F)
  unfolding parser_expect parser_match build_var
  snuk_var_parse default_null = do
    parser_expect Token.identifier "expected an identifier"
    name ← ask λ p. text_of p.previous
    colon ← parser_match Token.colon
    t ← type_or_any colon
    assign ← parser_match Token.assign
    value ← initial_value assign default_null
    pure (build_var name t value)

  -- An interface member has no value.
  abbrev no_value : SnukExpr F → P F (Unit {0})
  no_value Syntax.no_expr = pure tt
  no_value _ = parser_error "interface members should not have values"

  -- The loop over the members of an interface; the answer is whether it returned the null pointer.
  unfoldable pub interface_members : ℕ → SnukType → P F (SnukType × Bool)
  unfolding snuk_var_parse parser_match parser_expect_item_end build_interface_type
  interface_members zero t = λ p. out_of_rounds
  interface_members (suc rounds) t = parser_match Token.rbrace >>= λ closed. elim closed [
    | true ↦ pure (t, false)
    | false ↦ parser_check Token.eof >>= λ at_end. elim at_end [
      | true ↦ pure (t, false)
      | false ↦ parser_match Token.kw_var >>= λ is_var.
          (elim is_var [ true ↦ pure true | false ↦ parser_match Token.kw_const ]) >>= λ declares.
          elim declares [
            | true ↦ snuk_var_parse false >>= λ v.
                parser_expect_item_end
                >> (no_value (value_of v) >> interface_members rounds (build_interface_type t v))
            | false ↦ parser_error "expected var or const" >> pure (t, true)
          ]
    ]
  ]

  unfoldable pub snuk_type_parse_interface : P F SnukType
  unfolding interface_members parser_expect when_closed
  snuk_type_parse_interface = do
    parser_expect Token.lbrace "expected '{'"
    r ← interface_members calls.rounds (Types.type_interface Types.no_members)
    elim r.1 [
      | true ↦ pure Types.no_type
      | false ↦ when_closed Token.rbrace "expected '}'" Types.no_type (pure (r.0))
    ]

  -- The comma behind an element, which may be left out behind the last.
  unfoldable pub comma_unless : Token.TokenType → String → P F (Unit {0})
  unfolding parser_expect
  comma_unless close msg = parser_check close >>= λ last. elim last [
    | true ↦ pure tt
    | false ↦ parser_expect Token.comma msg
  ]

  unfoldable pub param_type : P F (SnukType → SnukType)
  unfolding comma_unless build_fn_type
  param_type = do
    t ← calls.snuk_type_parse
    comma_unless Token.rparen "expected ','"
    pure (λ fn_type. build_fn_type fn_type t Types.no_type)

  unfoldable pub parse_fn_type : P F SnukType
  unfolding param_type collect when_closed parser_expect parser_match build_fn_type
  parse_fn_type = do
    parser_expect Token.lparen "exptected '('"
    t ←
        collect calls.rounds Token.rparen param_type
          (build_fn_type Types.no_type Types.no_type Types.no_type)
    when_closed Token.rparen "expected ')'" Types.no_type do
      arrow ← parser_match Token.arrow
      ret ← type_or_any arrow
      pure (build_fn_type t Types.no_type ret)

  unfoldable pub parse_named_type : P F SnukType
  unfolding parser_expect build_named_type
  parse_named_type = do
    parser_expect Token.identifier "expected a type name"
    name ← ask λ p. text_of p.previous
    pure (build_named_type name)

  unfoldable pub parse_type_body : P F SnukType
  unfolding parser_match parse_fn_type snuk_type_parse_interface parse_named_type
  parse_type_body = parser_match Token.kw_fn >>= λ is_fn. elim is_fn [
    | true ↦ parse_fn_type
    | false ↦ parser_match Token.kw_interface >>= λ is_interface. elim is_interface [
      | true ↦ snuk_type_parse_interface
      | false ↦ parser_match Token.kw_type >>= λ is_type. elim is_type [
        | true ↦ pure Types.type_type
        | false ↦ parser_match Token.kw_any >>= λ is_any. elim is_any [
          | true ↦ pure Types.type_any
          | false ↦ parse_named_type
        ]
      ]
    ]
  ]
