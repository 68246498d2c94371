-- ===== src/Interpreter/Conversions/Tests.antt =====
-- The types bool, int and float at concrete values.
use snuk.Prelude.{
  ℕ, true, false, List, ok, ◌≡◌, refl, ℤ, pos, negsuc, eqb_ℤ, codes, length, should_not_reach,
}
use snuk.Text.{StringView}
use snuk.Parser.Syntax
use snuk.Parser.Syntax.{SnukExpr}
use snuk.Values
use snuk.Values.{Floats, is_true}
use snuk.Interpreter.State
use snuk.Interpreter.State.{Value, SnukInterpreter, Run, done, fault, I, bind, pure}
use snuk.Interpreter.Whole.{calls_of}
use snuk.Interpreter.Builtins.{
  Casts, to_float, to_str, builtin_bool, builtin_int, convert, table, result_type, function_at,
}
use snuk.Interpreter.Init.{snuk_interpreter_init}
use snuk.Interpreter.Conversions.{from_bool, from_int, has_kind, convert-typed, convert-is_true}

abbrev fl : Floats ℕ
fl = record {
  fneg = λ x. x;
  fadd = λ x y. x;
  fsub = λ x y. x;
  fmul = λ x y. x;
  fdiv = λ x y. x;
  flt = λ x y. false;
  feq = λ x y. false;
  fzero = 0;
}

-- Numbers are printed as `7`.
abbrev casts : Casts ℕ
casts = record {
  of_int = λ n. 1;
  truncate = λ x. ok (pos x);
  print_int = λ n. codes "7";
  print_float = λ x. codes "7";
}

abbrev others : ℕ → I ℕ (Value ℕ)
others n s = fault should_not_reach

abbrev true_view : StringView
true_view = record { str = codes "\"true\""; len = 6 }

abbrev shown : Value ℕ
shown = Values.string true_view

true_string : convert casts fl builtin_bool to_str (Values.bool true) ≡ ok shown
unfolding convert
true_string = refl

convert-typed_example : has_kind shown (result_type to_str) ≡ true
convert-typed_example =
    convert-typed casts fl builtin_bool to_str (Values.bool true) shown (from_bool true) true_string

-- Integers in place of floats.
abbrev ints : Floats ℤ
ints = record {
  fneg = λ x. x;
  fadd = λ x y. x;
  fsub = λ x y. x;
  fmul = λ x y. x;
  fdiv = λ x y. x;
  flt = λ x y. false;
  feq = eqb_ℤ;
  fzero = pos 0;
}

abbrev same_casts : Casts ℤ
same_casts = record {
  of_int = λ n. n;
  truncate = ok;
  print_int = λ n. codes "7";
  print_float = λ x. codes "7";
}

abbrev minus_5 : Value ℤ
minus_5 = Values.int (negsuc 4)

convert-is_true_example :
    (w : Value ℤ) × (convert same_casts ints builtin_int to_float minus_5 ≡ ok w)
    × (has_kind w (result_type to_float) ≡ true)
    × (is_true ints w ≡ is_true ints minus_5)
convert-is_true_example =
    convert-is_true same_casts ints builtin_int to_float minus_5 (λ n. refl) refl
      (from_int (negsuc 4)) refl

abbrev value_of : Run ℕ (Value ℕ) → Value ℕ
value_of (done a s) = a
value_of _ = Values.unknown

-- The interpreter is initialized, and then an expression is evaluated.
abbrev run : SnukExpr ℕ → Run ℕ (Value ℕ)
run e =
    let c = calls_of fl (function_at casts fl 9 table others) 9 in
    bind (snuk_interpreter_init c (λ weak. pure Values.null)) (λ _. c.eval_expr e false)

-- `e.name()`
abbrev method : SnukExpr ℕ → List ℕ → SnukExpr ℕ
method e name =
    Syntax.expr_call
      (Syntax.expr_member e (Syntax.expr_identifier (record { str = name; len = length name })))
      Syntax.no_exprs

true_to_int : value_of (run (method (Syntax.expr_bool true) (codes "to_int"))) ≡ Values.int (pos 1)
unfolding calls_of snuk_interpreter_init function_at State.pushed
true_to_int = refl

int_to_bool : value_of (run (method (Syntax.expr_int 5) (codes "to_bool"))) ≡ Values.bool true
unfolding calls_of snuk_interpreter_init function_at State.pushed
int_to_bool = refl
