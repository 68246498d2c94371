-- ===== src/Parser/Tests.antt =====
-- Runs of the parser on small programs, and the theorems about it at concrete inputs.
use snuk.Prelude.{ℕ, ◌≤◌, true, List, [], ◌∷◌, wild, ◌≡◌, refl, codes, arith}
use snuk.Text.{StringView}
use snuk.Lexer.Token
use snuk.Lexer.Token.{TokenType, Token, Literal}
use snuk.Types
use snuk.Types.{SnukType}
use snuk.Parser.Enum.{same_type}
use snuk.Parser.Rules.{precedence_of}
use snuk.Parser.Syntax
use snuk.Parser.Syntax.{SnukExpr, SnukItem, SnukVar, Exprs, push_item}
use snuk.Parser.State.{done, fault, out_of_rounds, parser_copy_string_view, text_of, collect}
use snuk.Parser.Calls.{snuk_expr_parse}
use snuk.Parser.Whole.{calls_of, parser_sync, snuk_parser_next_item}
use snuk.Parser.Block.{type_member}
use snuk.Parser.Grammar
use snuk.Parser.Grammar.{Derives, name_expr}
use snuk.Parser.Statements
use snuk.Parser.Statements.{Statement}
use snuk.Parser.Stream.{◌▸◌, ahead, at_stream}
use snuk.Parser.Start.{zero_token}
use snuk.Parser.Complete.{start, expr_parse_lem}
use snuk.Parser.Reads.{next_item_lem}
use snuk.Parser.Sync.{sync_lem, sync-lexer_error}
use snuk.Parser.Stuck.{type_members-stuck, nan_assign-wild}

abbrev view : List ℕ → ℕ → StringView
view s n = record { str = s; len = n }

-- Tokens of a program; a `double` is a natural number here.
abbrev tok : TokenType → Token ℕ
tok t = record zero_token { type = t }

abbrev name : List ℕ → Token ℕ
name s = record (tok Token.identifier) { literal = Token.text (view s 1) }

abbrev number : ℕ → Token ℕ
number n = record (tok Token.integer) { literal = Token.int n }

abbrev ends : ℕ → Token ℕ
ends i = tok Token.eof

abbrev word : List ℕ → SnukExpr ℕ
word s = Syntax.expr_identifier (parser_copy_string_view (view s 1))

abbrev a : Token ℕ
a = name (codes "a")

abbrev b : Token ℕ
b = name (codes "b")

-- `1 + 2 * b`
abbrev sum : List (Token ℕ)
sum = number 1 ∷ tok Token.plus ∷ number 2 ∷ tok Token.star ∷ b ∷ []

abbrev sum_expr : SnukExpr ℕ
sum_expr =
    Syntax.expr_binary Token.plus (Syntax.expr_int 1)
      (Syntax.expr_binary Token.star (Syntax.expr_int 2) (name_expr b))

one_token :
    (k : ℕ) (t : Token ℕ) (e : SnukExpr ℕ) → k ≤ 13 → Grammar.Atom t.type t e → Derives k (t ∷ []) e
one_token k t e le h = Grammar.derives_up 13 k (t ∷ []) e le (Grammar.derives_atom t e h)

sum-Derives : Derives 10 sum sum_expr
sum-Derives =
    Grammar.derives_binary 10 (tok Token.plus) (number 1 ∷ []) (number 2 ∷ tok Token.star ∷ b ∷ [])
      (Syntax.expr_int 1) _
      (one_token 10 (number 1) (Syntax.expr_int 1) (omega arith) (Grammar.atom_int refl))
      Grammar.op_plus
      (Grammar.derives_binary 11 (tok Token.star) (number 2 ∷ []) (b ∷ []) (Syntax.expr_int 2)
        (name_expr b)
        (one_token 11 (number 2) (Syntax.expr_int 2) (omega arith) (Grammar.atom_int refl))
        Grammar.op_star (one_token 12 b (name_expr b) (omega arith) Grammar.atom_name))

-- `a = 1 + 2 * b`
abbrev assigned : List (Token ℕ)
assigned = a ∷ tok Token.assign ∷ sum

assigned-Derives : Derives 1 assigned (Syntax.expr_assign (name_expr a) sum_expr)
assigned-Derives =
    Grammar.derives_assign (tok Token.assign) (a ∷ []) sum (name_expr a) sum_expr
      (one_token 2 a (name_expr a) (omega arith) Grammar.atom_name) refl
      (Grammar.derives_up 10 1 sum sum_expr (omega arith) sum-Derives)

expr_parse_lem_example :
    snuk_expr_parse (calls_of 10) (at_stream start zero_token (assigned ▸ ends))
    ≡ done (Syntax.expr_assign (name_expr a) sum_expr) (at_stream start b ends)
unfolding precedence_of same_type
expr_parse_lem_example =
    expr_parse_lem assigned (Syntax.expr_assign (name_expr a) sum_expr) assigned-Derives 9 start
      zero_token ends (omega arith) refl refl

-- `var a: b = 1 + 2 * b;`
abbrev declared : List (Token ℕ)
declared = tok Token.kw_var ∷ a ∷ tok Token.colon ∷ b ∷ tok Token.assign ∷ sum

abbrev variable_a : SnukVar ℕ
variable_a =
    Syntax.snuk_var (parser_copy_string_view (text_of a))
      (Types.type_named (parser_copy_string_view (text_of b))) sum_expr

declared-Statement : Statement declared (Syntax.item_var_decl variable_a)
declared-Statement =
    Statements.statement_var (tok Token.kw_var) (a ∷ tok Token.colon ∷ b ∷ tok Token.assign ∷ sum)
      variable_a refl
      (Statements.variable a (tok Token.colon ∷ b ∷ []) (tok Token.assign ∷ sum) _ sum_expr refl
        (Statements.annotation_name (tok Token.colon) b refl refl)
        (Statements.initial_some (tok Token.assign) sum sum_expr refl
          (Grammar.derives_up 10 1 sum sum_expr (omega arith) sum-Derives)))

next_item_lem_example :
    snuk_parser_next_item 14
      (at_stream start zero_token (declared ▸ ahead (tok Token.semicolon) ends))
    ≡ done (Syntax.item_var_decl variable_a) (at_stream start (tok Token.semicolon) ends)
unfolding same_type
next_item_lem_example =
    next_item_lem declared (Syntax.item_var_decl variable_a) declared-Statement 12 start zero_token
      (tok Token.semicolon) ends (omega arith) Statements.ends_semicolon refl refl

-- Behind `1` the tokens `2 3` are skipped.
sync_lem_example :
    parser_sync 3
      (at_stream start (number 1) ((number 2 ∷ number 3 ∷ []) ▸ ahead (tok Token.vsemicolon) ends))
    ≡ done (Syntax.item_error "" zero_token) (at_stream start (tok Token.vsemicolon) ends)
unfolding same_type
sync_lem_example =
    sync_lem (number 2 ∷ number 3 ∷ []) 3 start (number 1) (tok Token.vsemicolon) ends refl refl
      refl Statements.ends_vsemicolon refl (omega arith)

sync-lexer_error_example :
    parser_sync 3
      (at_stream start (number 1) ((number 2 ∷ tok Token.error ∷ tok Token.semicolon ∷ []) ▸ ends))
    ≡ done (Syntax.item_error "lexer error" (tok Token.error)) (
        at_stream
          (record start { panic_mode = true; err_msg = "lexer error"; err_token = tok Token.error })
          (tok Token.semicolon)
          ends)
unfolding same_type
sync-lexer_error_example =
    sync-lexer_error 0 start (number 1) (number 2) (tok Token.error) (tok Token.semicolon) ends refl
      refl refl refl Statements.ends_semicolon refl

-- `type {1`
type_members-stuck_example :
    collect 100 Token.rbrace
      (type_member (calls_of 100) push_item)
      Syntax.no_items
      (at_stream start (tok Token.lbrace) ((number 1 ∷ []) ▸ ends))
    ≡ out_of_rounds
unfolding same_type
type_members-stuck_example =
    type_members-stuck (calls_of 100) push_item 100 Syntax.no_items
      (at_stream start (tok Token.lbrace) ((number 1 ∷ []) ▸ ends)) refl

-- `nan +=`
nan_assign-wild_example :
    snuk_expr_parse
      (calls_of 3)
      (at_stream start zero_token ((tok Token.kw_nan ∷ tok Token.plus_assign ∷ []) ▸ ends))
    ≡ fault wild
unfolding same_type
nan_assign-wild_example =
    nan_assign-wild 0 start zero_token (tok Token.kw_nan) (tok Token.plus_assign) ends refl
      Grammar.op_plus_assign refl
