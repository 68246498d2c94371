-- ===== src/Interpreter/Errors.antt =====
-- src/interpreter/interpreter.c: a signal that leaves an item of the program.
use Prim.Native.String.{String}
use snuk.Prelude.{ℕ, Bool, true, false}
use snuk.Parser.Syntax
use snuk.Parser.Syntax.{SnukExpr, SnukItem, Exprs}
use snuk.Values
use snuk.Values.{Floats}
use snuk.Interpreter.State
use snuk.Interpreter.State.{Value, SnukInterpreter, Run, fault, I, raise_error}
use snuk.Interpreter.Calls.{Calls}
use snuk.Interpreter.Whole.{snuk_interpreter_exec_item}

module _ {F : Type 0} where
  abbrev pub is_literal : SnukExpr F → Bool
  is_literal (Syntax.expr_int n) = true
  is_literal (Syntax.expr_float x) = true
  is_literal (Syntax.expr_string v) = true
  is_literal (Syntax.expr_bool b) = true
  is_literal Syntax.expr_null = true
  is_literal _ = false

  -- The state behind a `break` that no loop catches.
  abbrev pub broken : SnukInterpreter F → SnukInterpreter F
  broken s = raise_error "signal is not none" (record s { signal = State.signal_break })

module _ {F : Type 0} (fl : Floats F) (others : ℕ → I F (Value F)) where
  abbrev exec : ℕ → SnukItem F → I F (Value F)
  exec = snuk_interpreter_exec_item fl others
