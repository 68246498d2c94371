-- ===== src/Interpreter/Calls.antt =====
-- src/interpreter/interpreter.c: the functions call each other. Each is defined over the calls that it
-- makes, and `Whole` ties them together, a call being given one round less than its caller.
use snuk.Prelude.{ℕ, Bool, Outcome, ok, trap, wild}
use snuk.Text.{StringView}
use snuk.Parser.Syntax
use snuk.Parser.Syntax.{SnukExpr, SnukItem, Items}
use snuk.Values.{Floats}
use snuk.Interpreter.State.{Native, Value, I}

pub record Calls (F : Type 0) : Type 0 where
  pub rounds : ℕ
  pub floats : Floats F
  pub eval_expr : SnukExpr F → Bool → I F (Value F)
  pub exec_item : SnukItem F → Bool → I F (Value F)
  pub call_native : Native → I F (Value F)

-- The items of a block; a member of the union that was not set is read of another expression.
unfoldable pub items_of : {F : Type 0} → SnukExpr F → Outcome (Items F)
items_of (Syntax.expr_block is) = ok is
items_of _ = trap wild

-- The name of an identifier.
unfoldable pub name_of : {F : Type 0} → SnukExpr F → Outcome StringView
name_of (Syntax.expr_identifier name) = ok name
name_of _ = trap wild
