-- ===== src/Interpreter/Tests.antt =====
-- The theorems about the interpreter at concrete programs.
use snuk.Prelude.{
  ℕ, Bool, true, false, List, [], ◌∷◌, none, ◌≡◌, refl, inl, inr, pos, codes, length, arith,
  Bool-cases,
}
use snuk.Text.{StringView}
use snuk.Types
use snuk.Lexer.Token
use snuk.Parser.Syntax
use snuk.Parser.Syntax.{SnukExpr, SnukItem, Items}
use snuk.Values
use snuk.Values.{Floats}
use snuk.Values.Operators.{int_op, checked}
use snuk.Scopes.{SnukScope}
use snuk.Interpreter.State
use snuk.Interpreter.State.{
  Ref, Value, SnukInterpreter, Run, done, fault, out_of_rounds, I, pure, is_none,
}
use snuk.Interpreter.Env.{get_env, set_env}
use snuk.Interpreter.Calls.{Calls}
use snuk.Interpreter.Control.{execute_block_expr, execute_while_expr, nothing, all_signals, returns}
use snuk.Interpreter.Whole.{calls_of}
use snuk.Interpreter.Frames.{NativesRestore, Grows, eval_expr-frame}
use snuk.Interpreter.Signals.{Passes, Calm, block-Passes, while-Passes}
use snuk.Interpreter.Assign.{get_env-set_env}
use snuk.Interpreter.Logic.{not-and}
use snuk.Interpreter.Typed.{WellKinded, exec_item-WellKinded}

abbrev name_of : List ℕ → StringView
name_of s = record { str = s; len = length s }

abbrev x_name : StringView
x_name = name_of (codes "x")

-- Floats of one value only, which is not equal to itself.
abbrev nans : Floats ℕ
nans = record {
  fneg = λ x. x;
  fadd = λ x y. x;
  fsub = λ x y. x;
  fmul = λ x y. x;
  fdiv = λ x y. x;
  flt = λ x y. false;
  feq = λ x y. false;
  fzero = 0;
}

-- The other functions in C give null.
abbrev nulls : ℕ → I ℕ (Value ℕ)
nulls n = pure Values.null

abbrev scope_0 : ℕ → SnukScope (Value ℕ)
scope_0 h = record { vars = []; parent = none; weak_ref = false }

abbrev start : SnukInterpreter ℕ
start = record {
  store = record { scopes = scope_0; next = 1 };
  frame = record { global = 0; current = 0; instance_scope = none };
  signal = State.signal_none;
  panic_mode = false;
  err_msg = "";
  output = [];
}

abbrev x_expr : SnukExpr ℕ
x_expr = Syntax.expr_identifier x_name

abbrev declare_x : SnukItem ℕ
declare_x =
    Syntax.item_var_decl
      (Syntax.snuk_var x_name (Types.type_named (name_of (codes "int"))) (Syntax.expr_int 2))

-- `while x { x = x - 1; if x { continue } else { break } }`
abbrev loop : SnukExpr ℕ
loop = Syntax.expr_while x_expr (
    Syntax.expr_block (
      Syntax.items
        (Syntax.item_expr
          (Syntax.expr_compound_assign Token.minus_assign x_expr (Syntax.expr_int 1)))
        (Syntax.items
          (Syntax.item_expr (
            Syntax.expr_if x_expr
              (Syntax.expr_block (Syntax.items Syntax.item_continue Syntax.no_items))
              (Syntax.expr_block
                (Syntax.items (Syntax.item_break Syntax.no_expr) Syntax.no_items))))
          Syntax.no_items)))

-- The declaration and the loop in a block.
abbrev program : SnukExpr ℕ
program = Syntax.expr_block (
    Syntax.items declare_x (
      Syntax.items (Syntax.item_expr loop)
        (Syntax.items (Syntax.item_expr x_expr) Syntax.no_items)))

abbrev run_program : Run ℕ (Value ℕ)
run_program = (calls_of nans nulls 12).eval_expr program false start

abbrev state_of : {A : Type 0} → Run ℕ A → SnukInterpreter ℕ
state_of (done a s) = s
state_of _ = start

abbrev value_of : Run ℕ (Value ℕ) → Value ℕ
value_of (done a s) = a
value_of _ = Values.unknown

program_value : value_of run_program ≡ Values.int (pos 0)
unfolding calls_of State.pushed int_op checked
program_value = refl

abbrev final : SnukInterpreter ℕ
final = state_of run_program

program_runs : run_program ≡ done (value_of run_program) final
unfolding calls_of State.pushed int_op checked
program_runs = refl

program_calm : final.panic_mode ≡ false
unfolding calls_of State.pushed int_op checked
program_calm = refl

nulls-restore : NativesRestore nulls
nulls-restore n s = elim (Bool-cases s.panic_mode) [
  | inl e ↦ inl e
  | inr e ↦ inr (e, refl, (omega arith, λ h lt. refl))
]

eval_expr-frame_example :
    (start.panic_mode ≡ false) × (final.frame ≡ start.frame) × Grows start.store final.store
eval_expr-frame_example =
    eval_expr-frame nans nulls nulls-restore 12 program false start final (value_of run_program)
      program_runs program_calm

-- The program as an item.
abbrev run_item : Run ℕ (Value ℕ)
run_item = (calls_of nans nulls 13).exec_item (Syntax.item_expr program) false start

item_runs : run_item ≡ done (value_of run_item) (state_of run_item)
unfolding calls_of State.pushed int_op checked
item_runs = refl

item_calm : (state_of run_item).panic_mode ≡ false
unfolding calls_of State.pushed int_op checked
item_calm = refl

exec_item-WellKinded_example : WellKinded (state_of run_item).store
exec_item-WellKinded_example =
    exec_item-WellKinded nans nulls (λ n s w. w) 13 (Syntax.item_expr program) false start
      (state_of run_item) (value_of run_item) item_runs (λ h. tt)

-- A block with a `continue` that it passes on.
abbrev continues_block : SnukExpr ℕ
continues_block =
    Syntax.expr_block
      (Syntax.items (Syntax.item_expr x_expr) (Syntax.items Syntax.item_continue Syntax.no_items))

abbrev calls : Calls ℕ
calls = calls_of nans nulls 6

abbrev run_block : Run ℕ (Value ℕ)
run_block = execute_block_expr calls continues_block nothing all_signals false start

block_runs : run_block ≡ done (value_of run_block) (state_of run_block)
unfolding calls_of State.pushed
block_runs = refl

block-Passes_example : Passes all_signals (state_of run_block).signal
unfolding is_none
block-Passes_example =
    block-Passes calls continues_block nothing all_signals false start (state_of run_block)
      (value_of run_block) refl block_runs

-- `while null { }` and its condition.
abbrev empty_block : SnukExpr ℕ
empty_block = Syntax.expr_block Syntax.no_items

abbrev run_loop : Run ℕ (Value ℕ)
run_loop = execute_while_expr calls false Syntax.expr_null empty_block false start

loop_runs : run_loop ≡ done (value_of run_loop) (state_of run_loop)
unfolding calls_of execute_while_expr
loop_runs = refl

null-Calm : Calm calls Syntax.expr_null false
unfolding calls_of
null-Calm s e = e

while-Passes_example : Passes returns (state_of run_loop).signal
unfolding is_none
while-Passes_example =
    while-Passes calls false Syntax.expr_null empty_block false start (state_of run_loop)
      (value_of run_loop) null-Calm refl loop_runs

-- `x`, which may have any value, in the global scope.
abbrev with_x : SnukInterpreter ℕ
with_x = record start {
  store = record {
    scopes = λ h. record {
      vars = record { name = x_name; type = Types.type_any; value = Values.null } ∷ [];
      parent = none;
      weak_ref = false;
    };
    next = 1;
  };
}

abbrev run_set : Run ℕ Bool
run_set = set_env 3 x_name (Values.int (pos 5)) with_x

set_runs : run_set ≡ done true (state_of run_set)
unfolding set_env
set_runs = refl

get_env-set_env_example :
    get_env 3 x_name (state_of run_set) ≡ done (Values.int (pos 5)) (state_of run_set)
get_env-set_env_example =
    get_env-set_env x_name (Values.int (pos 5)) with_x (state_of run_set) 3 set_runs

abbrev eval : ℕ → SnukExpr ℕ → Bool → I ℕ (Value ℕ)
eval n = (calls_of nans nulls n).eval_expr

not-and_example :
    eval 4
      (Syntax.expr_unary Token.kw_not (Syntax.expr_binary Token.kw_and x_expr (Syntax.expr_int 1)))
      false
      with_x
    ≡ eval 4
        (Syntax.expr_binary Token.kw_or
          (Syntax.expr_unary Token.kw_not x_expr)
          (Syntax.expr_unary Token.kw_not (Syntax.expr_int 1)))
        false
        with_x
not-and_example = not-and nans nulls 1 x_expr (Syntax.expr_int 1) false with_x
