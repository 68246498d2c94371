-- ===== src/Parser/Calls.antt =====
-- The functions of the parser call each other. Each is defined over the calls that it makes, and
-- `Whole` ties them together, a call being given one round less than its caller.
use snuk.Prelude.{ℕ}
use snuk.Types.{SnukType}
use snuk.Parser.Syntax.{SnukExpr, SnukItem}
use snuk.Parser.Rules.{precedence_assignment}
use snuk.Parser.State.{P}

pub record Calls (F : Type 0) : Type 0 where
  pub rounds : ℕ
  pub parse_precedence : ℕ → P F (SnukExpr F)
  pub parse_if : P F (SnukExpr F)
  pub snuk_item_parse : P F (SnukItem F)
  pub snuk_type_parse : P F SnukType

abbrev pub snuk_expr_parse : {F : Type 0} → Calls F → P F (SnukExpr F)
snuk_expr_parse c = c.parse_precedence precedence_assignment
