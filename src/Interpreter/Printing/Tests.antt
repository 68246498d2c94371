-- ===== src/Interpreter/Printing/Tests.antt =====
-- Printing an instance at concrete members.
use snuk.Prelude.{
  ℕ, ◌∷◌, [], ◌++◌, none, true, false, ◌≡◌, ◌⊎◌, refl, inl, inr, codes, length, should_not_reach,
  List,
}
use snuk.Text.{equal_cstr}
use snuk.Types
use snuk.Parser.Syntax
use snuk.Values
use snuk.Scopes.{SnukEnv}
use snuk.Interpreter.State
use snuk.Interpreter.State.{Ref, Value, SnukInterpreter, done, fault}
use snuk.Interpreter.Control.{print_value}
use snuk.Interpreter.Printing.{Unprintable, print_value-ends}

abbrev to : ℕ → Ref ℕ
to h = record {
  closure = h;
  type = Types.type_any;
  instance_scope = none;
  type_scope = none;
  body = Syntax.no_expr;
  native = State.other 0;
}

abbrev object : Value ℕ
object = Values.type_inst (to 1) true

abbrev member : List ℕ → Value ℕ → SnukEnv (Value ℕ)
member s v = record { name = record { str = s; len = length s }; type = Types.type_any; value = v }

-- An instance with `self` and a function in C.
abbrev with_native : SnukInterpreter ℕ
with_native = record {
  store = record {
    scopes = λ h. record {
      vars = member (codes "self") object ∷ member (codes "f") (Values.fn_native (to 2)) ∷ [];
      parent = none;
      weak_ref = false;
    };
    next = 3;
  };
  frame = record { global = 0; current = 0; instance_scope = none };
  signal = State.signal_none;
  panic_mode = false;
  err_msg = "";
  output = [];
}

native_member : print_value 2 object with_native ≡ fault should_not_reach
unfolding print_value
native_member = refl

print_value-ends_example :
    ((print_value 2 object with_native
        ≡ done tt (record with_native { output = [] ++ (State.shown object ∷ []) }))
      × ¬ Unprintable with_native.store object)
    ⊎ ((print_value 2 object with_native ≡ fault should_not_reach)
        × Unprintable with_native.store object)
unfolding equal_cstr
print_value-ends_example = print_value-ends 2 object with_native (inl refl, (inr tt, tt))
