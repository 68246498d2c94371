-- ===== src/Interpreter/Whole.antt =====
-- src/interpreter/interpreter.c: expressions and items, the functions tied together, and those that
-- the interpreter's users call.
use snuk.Prelude.{
  ℕ, zero, suc, Bool, true, false, pos, of_word, codes, should_not_reach, wild, if◌then◌else◌,
}
use snuk.Text.{create_with_len}
use snuk.Parser.Syntax
use snuk.Parser.Syntax.{SnukExpr, SnukItem, SnukVar}
use snuk.Values
use snuk.Values.{SnukValue, Floats}
use snuk.Interpreter.State
use snuk.Interpreter.State.{
  Native, Value, SnukSignal, SnukInterpreter, Run, is_none, I, fault, out_of_rounds, ◌>>=◌, ◌>>◌,
  pure, change, set_signal, interpreter_check, interpreter_error,
}
use snuk.Interpreter.Env.{get_env, create_env, is_inst}
use snuk.Interpreter.Calls.{Calls}
use snuk.Interpreter.Control.{
  signal, execute_unary_op, execute_binary_op, execute_print_item, execute_block_expr,
  execute_if_expr, execute_while_expr, execute_for_expr, is_there, breaks, returns_continues,
}
use snuk.Interpreter.Objects.{
  execute_type_declaration, execute_fn_expr, execute_inst_creation, self_str,
}
use snuk.Interpreter.Functions.{execute_call_expr}
use snuk.Interpreter.Members.{
  execute_member_get, execute_assign_expr, execute_compound_binary_op, execute_extend,
  execute_interface,
}

-- The functions of `null`; the other functions in C are a parameter.
unfoldable pub native_body : {F : Type 0} → Floats F → (ℕ → I F (Value F)) → Native → I F (Value F)
unfolding create_with_len
native_body fl others State.null_to_int = pure (Values.int (pos 0))
native_body fl others State.null_to_float = pure (Values.float fl.fzero)
native_body fl others State.null_to_bool = pure (Values.bool false)
native_body fl others State.null_to_str = pure (Values.string (create_with_len (codes "null") 4))
native_body fl others (State.other n) = others n

module _ {F : Type 0} (c : Calls F) where
  unfoldable pub eval_self : I F (Value F)
  unfolding get_env is_inst interpreter_check
  eval_self = get_env c.rounds self_str >>= λ v. interpreter_check (is_inst v) "self error" (pure v)

  unfoldable pub eval_body : SnukExpr F → Bool → I F (Value F)
  unfolding get_env execute_unary_op execute_binary_op execute_assign_expr
      execute_compound_binary_op execute_if_expr execute_while_expr execute_for_expr execute_fn_expr
      execute_type_declaration execute_inst_creation execute_block_expr execute_call_expr
      execute_member_get eval_self
  eval_body Syntax.no_expr weak = λ s. fault wild
  eval_body (Syntax.expr_identifier name) weak = get_env c.rounds name
  eval_body (Syntax.expr_int n) weak = pure (Values.int (of_word n))
  eval_body (Syntax.expr_float x) weak = pure (Values.float x)
  eval_body (Syntax.expr_string v) weak = pure (Values.string v)
  eval_body (Syntax.expr_bool b) weak = pure (Values.bool b)
  eval_body Syntax.expr_null weak = pure Values.null
  eval_body (Syntax.expr_unary op e) weak = execute_unary_op c op e weak
  eval_body (Syntax.expr_binary op l r) weak = execute_binary_op c op l r weak
  eval_body (Syntax.expr_assign target e) weak = execute_assign_expr c target e weak
  eval_body (Syntax.expr_compound_assign op target e) weak =
      execute_compound_binary_op c op target e weak
  eval_body (Syntax.expr_if cond t e) weak = execute_if_expr c cond t e weak
  eval_body (Syntax.expr_match e) weak = λ s. fault should_not_reach
  eval_body (Syntax.expr_while cond body) weak = execute_while_expr c false cond body weak
  eval_body (Syntax.expr_do_while cond body) weak = execute_while_expr c true cond body weak
  eval_body (Syntax.expr_for init cond update body) weak =
      execute_for_expr c init cond update body weak
  eval_body (Syntax.expr_fn params body name t) weak = execute_fn_expr c params body name t weak
  eval_body (Syntax.expr_type members name t) weak = execute_type_declaration c members name t weak
  eval_body (Syntax.expr_type_inst t name init) weak = execute_inst_creation c t name init weak
  eval_body (Syntax.expr_block is) weak =
      execute_block_expr c (Syntax.expr_block is) breaks returns_continues weak
  eval_body (Syntax.expr_call callee args) weak = execute_call_expr c callee args weak
  eval_body (Syntax.expr_member e field) weak = execute_member_get c e field weak
  eval_body Syntax.expr_self weak = eval_self
  eval_body Syntax.expr_index weak = pure Values.null
  eval_body (Syntax.expr_list es) weak = pure Values.null
  eval_body (Syntax.expr_line_comment v) weak = pure Values.null
  eval_body (Syntax.expr_block_comment v) weak = pure Values.null

  unfoldable pub declare : SnukVar F → Bool → Bool → I F (Value F)
  unfolding create_env interpreter_check
  declare (Syntax.snuk_var name t e) is_const weak = c.eval_expr e weak >>= λ v.
      create_env c.rounds name t v is_const >>= λ created.
      interpreter_check created "something went wrong while creating variable" (pure v)

  -- The value of `return` or `break`, and the signal.
  unfoldable pub jump : SnukSignal → SnukExpr F → Bool → I F (Value F)
  unfolding is_there
  jump g e weak =
      (if is_there e then c.eval_expr e weak else pure Values.null) >>= λ v. set_signal g >> pure v

  unfoldable pub exec_body : SnukItem F → Bool → I F (Value F)
  unfolding declare execute_print_item jump execute_extend execute_interface
  exec_body Syntax.no_item weak = λ s. fault wild
  exec_body (Syntax.item_expr e) weak = c.eval_expr e weak
  exec_body (Syntax.item_var_decl v) weak = declare v false weak
  exec_body (Syntax.item_const_decl v) weak = declare v true weak
  exec_body (Syntax.item_print es) weak = execute_print_item c es weak >> pure Values.null
  exec_body (Syntax.item_return e) weak = jump State.signal_return e weak
  exec_body (Syntax.item_break e) weak = jump State.signal_break e weak
  exec_body Syntax.item_continue weak = set_signal State.signal_continue >> pure Values.null
  exec_body (Syntax.item_extend e members) weak = execute_extend c e members weak
  exec_body (Syntax.item_interface name t) weak = execute_interface c name t weak
  exec_body (Syntax.item_error msg t) weak = pure Values.null

module _ {F : Type 0} where
  -- Behind an item: the panic ends, unless a signal is left.
  unfoldable pub end_item : Value F → I F (Value F)
  unfolding is_none interpreter_check interpreter_error
  end_item v = signal >>= λ g.
      interpreter_check (is_none g) "signal is not none"
        (change (λ s. record s { panic_mode = false }) >> pure v)

module _ {F : Type 0} (fl : Floats F) (others : ℕ → I F (Value F)) where
  -- Calls nest `n` deep at most, and loops run `n` rounds.
  unfoldable pub calls_of : ℕ → Calls F
  unfolding native_body eval_body exec_body
  calls_of zero = record {
    rounds = 0;
    floats = fl;
    eval_expr = λ e weak s. out_of_rounds;
    exec_item = λ i weak s. out_of_rounds;
    call_native = native_body fl others;
  }
  calls_of (suc n) = record {
    rounds = n;
    floats = fl;
    eval_expr = eval_body (calls_of n);
    exec_item = exec_body (calls_of n);
    call_native = native_body fl others;
  }

  unfoldable pub snuk_interpreter_exec_item : ℕ → SnukItem F → I F (Value F)
  unfolding calls_of end_item
  snuk_interpreter_exec_item rounds item = (calls_of rounds).exec_item item true >>= end_item

  unfoldable pub snuk_interpreter_eval_expr : ℕ → SnukExpr F → I F (Value F)
  unfolding calls_of
  snuk_interpreter_eval_expr rounds e = (calls_of rounds).eval_expr e true
