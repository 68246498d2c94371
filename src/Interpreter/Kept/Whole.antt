-- ===== src/Interpreter/Kept/Whole.antt =====
-- src/interpreter/interpreter.c: the evaluation of expressions and the execution of items keep every
-- relation that the steps respect.
use snuk.Prelude.{ℕ, zero, suc, Bool, true, false, if◌then◌else◌}
use snuk.Parser.Syntax
use snuk.Parser.Syntax.{SnukExpr, SnukItem, SnukVar}
use snuk.Values
use snuk.Values.{Floats}
use snuk.Interpreter.State
use snuk.Interpreter.State.{Native, Value, SnukSignal, I, pure}
use snuk.Interpreter.Env.{create_env, get_env, is_inst}
use snuk.Interpreter.Calls.{Calls}
use snuk.Interpreter.Control.{is_there, breaks, returns_continues, execute_print_item}
use snuk.Interpreter.Objects.{self_str}
use snuk.Interpreter.Whole.{native_body, eval_self, eval_body, declare, jump, exec_body, calls_of}
use snuk.Interpreter.Laws.{Discipline, Holds, holds_bind, holds_check}
use snuk.Interpreter.Kept.{create_env-kept, get_env-kept}
use snuk.Interpreter.Kept.Control.{
  CallsKeep, if_kept, unary-kept, binary-kept, print-kept, block-kept, if-kept, while-kept,
  for-kept,
}
use snuk.Interpreter.Kept.Objects.{type-kept, fn-kept, inst-kept}
use snuk.Interpreter.Kept.Functions.{call-kept}
use snuk.Interpreter.Kept.Members.{
  member-kept, assign-kept, compound-kept, extend-kept, interface-kept,
}

module _ {F : Type 0} (d : Discipline F) where
  native_body-kept :
      (fl : Floats F) (others : ℕ → I F (Value F))
      → ((n : ℕ) → Holds d (others n))
      → (n : Native) → Holds d (native_body fl others n)
  unfolding native_body
  native_body-kept fl others h State.null_to_int s = d.rel_refl s
  native_body-kept fl others h State.null_to_float s = d.rel_refl s
  native_body-kept fl others h State.null_to_bool s = d.rel_refl s
  native_body-kept fl others h State.null_to_str s = d.rel_refl s
  native_body-kept fl others h (State.other n) s = h n s

module _ {F : Type 0} (d : Discipline F) (c : Calls F) (ck : CallsKeep d c) where
  eval_self-kept : Holds d (eval_self c)
  unfolding eval_self
  eval_self-kept =
      holds_bind d (get_env c.rounds self_str) _ (get_env-kept d c.rounds self_str)
        (λ v. holds_check d (is_inst v) _ _ d.rel_refl)

  eval_body-kept : (e : SnukExpr F) (weak : Bool) → Holds d (eval_body c e weak)
  unfolding eval_body
  eval_body-kept Syntax.no_expr weak = λ s. tt
  eval_body-kept (Syntax.expr_identifier name) weak = get_env-kept d c.rounds name
  eval_body-kept (Syntax.expr_unary op e) weak = unary-kept d c ck op e weak
  eval_body-kept (Syntax.expr_binary op l r) weak = binary-kept d c ck op l r weak
  eval_body-kept (Syntax.expr_assign target e) weak = assign-kept d c ck target e weak
  eval_body-kept (Syntax.expr_compound_assign op target e) weak =
      compound-kept d c ck op target e weak
  eval_body-kept (Syntax.expr_if cond t e) weak = if-kept d c ck cond t e weak
  eval_body-kept (Syntax.expr_match e) weak = λ s. tt
  eval_body-kept (Syntax.expr_while cond body) weak = while-kept d c ck false cond body weak
  eval_body-kept (Syntax.expr_do_while cond body) weak = while-kept d c ck true cond body weak
  eval_body-kept (Syntax.expr_for init cond update body) weak =
      for-kept d c ck init cond update body weak
  eval_body-kept (Syntax.expr_fn ps body name t) weak = fn-kept d c ck ps body name t weak
  eval_body-kept (Syntax.expr_type members name t) weak = type-kept d c ck members name t weak
  eval_body-kept (Syntax.expr_type_inst t name init) weak = inst-kept d c ck t name init weak
  eval_body-kept (Syntax.expr_block is) weak =
      block-kept d c ck (Syntax.expr_block is) breaks returns_continues weak
  eval_body-kept (Syntax.expr_call callee args) weak = call-kept d c ck callee args weak
  eval_body-kept (Syntax.expr_member e field) weak = member-kept d c ck e field weak
  eval_body-kept Syntax.expr_self weak = eval_self-kept
  eval_body-kept _ weak = d.rel_refl

  declare-kept : (v : SnukVar F) (is_const weak : Bool) → Holds d (declare c v is_const weak)
  unfolding declare
  declare-kept (Syntax.snuk_var name t e) is_const weak =
      holds_bind d (c.eval_expr e weak) _ (ck.eval e weak) λ v.
        holds_bind d (create_env c.rounds name t v is_const) _
          (create_env-kept d c.rounds name t v is_const)
          (λ created. holds_check d created _ _ d.rel_refl)

  jump-kept : (g : SnukSignal) (e : SnukExpr F) (weak : Bool) → Holds d (jump c g e weak)
  unfolding jump
  jump-kept g e weak =
      holds_bind d (if is_there e then c.eval_expr e weak else pure Values.null) _
        (if_kept d (is_there e) _ _ (ck.eval e weak) d.rel_refl) (λ v s. d.signals s g)

  exec_body-kept : (i : SnukItem F) (weak : Bool) → Holds d (exec_body c i weak)
  unfolding exec_body
  exec_body-kept Syntax.no_item weak = λ s. tt
  exec_body-kept (Syntax.item_expr e) weak = ck.eval e weak
  exec_body-kept (Syntax.item_var_decl v) weak = declare-kept v false weak
  exec_body-kept (Syntax.item_const_decl v) weak = declare-kept v true weak
  exec_body-kept (Syntax.item_print es) weak =
      holds_bind d (execute_print_item c es weak) _ (print-kept d c ck es weak) (λ _. d.rel_refl)
  exec_body-kept (Syntax.item_return e) weak = jump-kept State.signal_return e weak
  exec_body-kept (Syntax.item_break e) weak = jump-kept State.signal_break e weak
  exec_body-kept Syntax.item_continue weak = λ s. d.signals s State.signal_continue
  exec_body-kept (Syntax.item_extend e members) weak = extend-kept d c ck e members weak
  exec_body-kept (Syntax.item_interface name t) weak = interface-kept d c ck name t weak
  exec_body-kept (Syntax.item_error msg t) weak = d.rel_refl

module _ {F : Type 0} (d : Discipline F) (fl : Floats F) (others : ℕ → I F (Value F))
    (kept : (n : ℕ) → Holds d (others n)) where
  pub calls_of-kept : (n : ℕ) → CallsKeep d (calls_of fl others n)
  unfolding calls_of
  calls_of-kept zero = record {
    eval = λ e weak s. tt;
    exec = λ i weak s. tt;
    native = native_body-kept d fl others kept;
  }
  calls_of-kept (suc n) = record {
    eval = eval_body-kept d (calls_of fl others n) (calls_of-kept n);
    exec = exec_body-kept d (calls_of fl others n) (calls_of-kept n);
    native = native_body-kept d fl others kept;
  }
