-- ===== src/Parser/Runs.antt =====
-- Runs of the lexer and the parser on texts.
use Prim.Native.String.{String}
use snuk.Prelude.{ℕ, false, List, Outcome, ok, trap, ◌≡◌, refl, codes}
use snuk.Text.{StringView}
use snuk.Lexer.Numbers.{Libc}
use snuk.Types
use snuk.Parser.Syntax
use snuk.Parser.Syntax.{SnukExpr, SnukItem, Exprs, Items}
use snuk.Parser.State.{Parser, Run, done}
use snuk.Parser.Whole.{snuk_parser_next_item}
use snuk.Parser.Start.{snuk_parser_init}
use snuk.Parser.Unfold.{parse_text}

abbrev toy : Libc ℕ
toy = record { strtod = λ s. (0, false); strtoll = λ s base. (7, false) }

abbrev letter : List ℕ → StringView
letter s = record { str = s; len = 1 }

-- The first item of a text.
abbrev item_of : Outcome (Parser ℕ) → Outcome (Run ℕ (SnukItem ℕ))
item_of (trap e) = trap e
item_of (ok p) = ok (snuk_parser_next_item 20 p)

abbrev kind : Outcome (Run ℕ (SnukItem ℕ)) → SnukItem ℕ
kind (ok (done i p)) = i
kind _ = Syntax.no_item

unfoldable first_item : List ℕ → SnukItem ℕ
unfolding parse_text
first_item s = kind (item_of (snuk_parser_init toy s))

abbrev word : List ℕ → SnukExpr ℕ
word s = Syntax.expr_identifier (letter s)

if_else :
    first_item (codes "if a { 7 } else if b { } else { c }")
    ≡ Syntax.item_expr (
        Syntax.expr_if
          (word (codes "a"))
          (Syntax.expr_block (Syntax.items (Syntax.item_expr (Syntax.expr_int 7)) Syntax.no_items))
          (Syntax.expr_if (word (codes "b")) (Syntax.expr_block Syntax.no_items) (
            Syntax.expr_block
              (Syntax.items (Syntax.item_expr (word (codes "c"))) Syntax.no_items))))
unfolding first_item
if_else = refl

for_condition :
    first_item (codes "for a { break }")
    ≡ Syntax.item_expr (
        Syntax.expr_for Syntax.no_item
          (word (codes "a"))
          Syntax.no_expr
          (Syntax.expr_block (Syntax.items (Syntax.item_break Syntax.no_expr) Syntax.no_items)))
unfolding first_item
for_condition = refl

function :
    first_item (codes "fn f(a: any, b) -> T { return a }")
    ≡ Syntax.item_expr (
        Syntax.expr_fn
          (Syntax.vars (Syntax.snuk_var (letter (codes "a")) Types.type_any Syntax.no_expr) (
            Syntax.vars
              (Syntax.snuk_var (letter (codes "b")) Types.type_any Syntax.no_expr)
              Syntax.no_vars))
          (Syntax.expr_block (Syntax.items (Syntax.item_return (word (codes "a"))) Syntax.no_items))
          (letter (codes "f"))
          (Types.type_fn
            (Types.param Types.type_any (Types.param Types.type_any Types.no_params))
            (Types.type_named (letter (codes "T")))))
unfolding first_item
function = refl

type_instance :
    first_item (codes "type T x = { a: 7\n }")
    ≡ Syntax.item_expr (
        Syntax.expr_type_inst (Types.type_named (letter (codes "T"))) (letter (codes "x")) (
          Syntax.exprs (Syntax.expr_assign (word (codes "a")) (Syntax.expr_int 7)) Syntax.no_exprs))
unfolding first_item
type_instance = refl

interface :
    first_item (codes "interface I { var a: fn(any) -> any\n }")
    ≡ Syntax.item_interface (letter (codes "I")) (
        Types.type_interface (
          Types.member
            (letter (codes "a"))
            (Types.type_fn (Types.param Types.type_any Types.no_params) Types.type_any)
            Types.no_members))
unfolding first_item
interface = refl

abbrev message : SnukItem ℕ → String
message (Syntax.item_error msg t) = msg
message _ = ""

no_name : message (first_item (codes "var = 7")) ≡ "expected an identifier"
unfolding first_item
no_name = refl
