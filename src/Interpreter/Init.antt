-- ===== src/Interpreter/Init.antt =====
-- src/interpreter/interpreter.c: the interpreter in front of the first item.
use snuk.Prelude.{Bool, true, false, [], none}
use snuk.Scopes.{SnukScope, snuk_scope_create}
use snuk.Interpreter.State
use snuk.Interpreter.State.{Value, SnukInterpreter, Run, I, ◌>>◌, pure}
use snuk.Interpreter.Calls.{Calls}
use snuk.Interpreter.Builtins.{create_builtin_types}

module _ {F : Type 0} where
  -- The global scope is the first one, and no other is open.
  unfoldable pub initial : SnukInterpreter F
  unfolding snuk_scope_create
  initial =
      let empty : SnukScope (Value F) = record { vars = []; parent = none; weak_ref = false } in
      let r = snuk_scope_create none false (record { scopes = λ h. empty; next = 0 }) in
      record {
        store = r.0;
        frame = record { global = r.1; current = r.1; instance_scope = none };
        signal = State.signal_none;
        panic_mode = false;
        err_msg = "";
        output = [];
      }

  -- Whether the types could be created is not looked at.
  unfoldable pub snuk_interpreter_init : Calls F → (Bool → I F (Value F)) → Run F (Unit {0})
  unfolding initial create_builtin_types
  snuk_interpreter_init c create_str = (create_builtin_types c create_str true >> pure tt) initial
