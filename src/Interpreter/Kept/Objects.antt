-- ===== src/Interpreter/Kept/Objects.antt =====
-- src/interpreter/interpreter.c: functions, types and instances keep every relation that the steps
-- respect.
use Prim.Native.String.{String}
use snuk.Prelude.{ℕ, Bool, true, false}
use snuk.Text.{StringView}
use snuk.Types.{SnukType}
use snuk.Parser.Syntax
use snuk.Parser.Syntax.{SnukExpr, SnukVar, Items, Exprs, Vars}
use snuk.Values
use snuk.Interpreter.State.{
  Value, SnukInterpreter, I, is_none, ◌>>=◌, ◌>>◌, pure, lift, pushed, current, interpreter_check,
  downgrade_if,
}
use snuk.Interpreter.Env.{create_env, get_env, set_member}
use snuk.Interpreter.Calls.{Calls, name_of}
use snuk.Interpreter.Objects.{
  has_name, bind_name, member_items, leave_object, execute_type_declaration, fn_params,
  execute_fn_expr, fits_builtin, init_members, finish_inst, inst_of_type, execute_inst_creation,
  type_name, instance_of, self_str,
}
use snuk.Interpreter.Laws.{
  Discipline, Holds, Inside, Inside-bind, Inside-then, Inside-check, Inside-error, holds_bind,
  holds_check, holds_error,
}
use snuk.Interpreter.Kept.{
  create_env-kept, get_env-kept, set_member-kept, pop-kept, downgrade_if-kept,
}
use snuk.Interpreter.Kept.Control.{CallsKeep, if_kept, lift-kept}

module _ {F : Type 0} (d : Discipline F) (c : Calls F) (ck : CallsKeep d c) where
  -- The binding is made, and the rest comes.
  pub created_then :
      {s b : SnukInterpreter F} (w : d.Weak s b) (name : StringView) (t : SnukType) (v : Value F)
      (is_const : Bool) (msg : String) (rest : I F (Value F))
      → Inside d s b rest
      → Inside d s b
          (create_env c.rounds name t v is_const >>= λ created. interpreter_check created msg rest)
  created_then {s = s} {b = b} w name t v is_const msg rest h =
      Inside-bind d s b (create_env c.rounds name t v is_const) _
        (create_env-kept d c.rounds name t v is_const)
        (λ created. Inside-check d s b created msg rest w h)

  bind_name-kept :
      (name : StringView) (t : SnukType) (v : Value F) (msg : String)
      → Holds d (bind_name c name t v msg)
  unfolding bind_name
  bind_name-kept name t v msg =
      if_kept d (has_name name) _ _
        (holds_bind d (create_env c.rounds name t v false) _
          (create_env-kept d c.rounds name t v false)
          (λ created. holds_check d created msg (pure v) d.rel_refl))
        d.rel_refl

  pub member_items-kept :
      (s b : SnukInterpreter F)
      → d.Weak s b
      → (is : Items F) (rest : I F (Value F)) → Inside d s b rest
      → Inside d s b (member_items c is rest)
  unfolding member_items
  member_items-kept s b w Syntax.no_items rest h = h
  member_items-kept s b w (Syntax.items i is) rest h =
      Inside-bind d s b (c.exec_item i true) _ (ck.exec i true) λ _ t.
        Inside-check d s b (is_none t.signal) "signal is not none" _ w
          (member_items-kept s b w is rest h) t

  pub leave_object-kept :
      (s : SnukInterpreter F) (weak : Bool) (h : ℕ) → Inside d s (pushed s) (leave_object weak h)
  unfolding leave_object
  leave_object-kept s weak h = pop-kept d s (λ _. downgrade_if weak h) (downgrade_if-kept d weak h)

  -- The object is made out of the scope, which is left, and gets its name.
  pub object-kept :
      (s : SnukInterpreter F) (weak : Bool) (name : StringView) (t : SnukType) (v : ℕ → Value F)
      (msg : String)
      → Inside d s (pushed s) (current >>= λ h. leave_object weak h >> bind_name c name t (v h) msg)
  object-kept s weak name t v msg u =
      Inside-then d s (pushed s) (leave_object weak u.frame.current) _
        (leave_object-kept s weak u.frame.current)
        (λ _. bind_name-kept name t (v u.frame.current) msg) u

  pub type-kept :
      (members : Items F) (name : StringView) (t : SnukType) (weak : Bool)
      → Holds d (execute_type_declaration c members name t weak)
  unfolding execute_type_declaration
  type-kept members name t weak s =
      member_items-kept s (pushed s) (d.pushes s) members _ (object-kept s weak name t _ _)
        (pushed s) (d.rel_refl (pushed s))

  fn_params-kept :
      (s b : SnukInterpreter F)
      → d.Weak s b
      → (ps : Vars F) (rest : I F (Value F)) → Inside d s b rest
      → Inside d s b (fn_params c ps rest)
  unfolding fn_params
  fn_params-kept s b w Syntax.no_vars rest h = h
  fn_params-kept s b w (Syntax.vars (Syntax.snuk_var name t Syntax.no_expr) ps) rest h =
      created_then w name t Values.unknown false _ _ (fn_params-kept s b w ps rest h)
  fn_params-kept s b w (Syntax.vars (Syntax.snuk_var name t e) ps) rest h =
      Inside-bind d s b (c.eval_expr e false) _ (ck.eval e false)
        (λ v. created_then w name t v false _ _ (fn_params-kept s b w ps rest h))

  pub fn-kept :
      (ps : Vars F) (body : SnukExpr F) (name : StringView) (t : SnukType) (weak : Bool)
      → Holds d (execute_fn_expr c ps body name t weak)
  unfolding execute_fn_expr
  fn-kept ps body name t weak s =
      fn_params-kept s (pushed s) (d.pushes s) ps _ (object-kept s weak name t _ _) (pushed s)
        (d.rel_refl (pushed s))

  init_members-kept :
      (s b : SnukInterpreter F)
      → d.Weak s b
      → (n : StringView) (inst : Value F) (es : Exprs F) (rest : I F (Value F)) → Inside d s b rest
      → Inside d s b (init_members c n inst es rest)
  unfolding init_members
  init_members-kept s b w n inst Syntax.no_exprs rest h = h
  init_members-kept s b w n inst (Syntax.exprs Syntax.no_expr es) rest h = λ t r. tt
  init_members-kept s b w n inst (Syntax.exprs (Syntax.expr_assign x e) es) rest h =
      Inside-bind d s b (lift (name_of x)) _ (lift-kept d (name_of x)) λ name.
        Inside-bind d s b (c.eval_expr e true) _ (ck.eval e true) λ v.
          Inside-check d s b (fits_builtin n name v) _ _ w (
            Inside-bind d s b (set_member c.rounds inst name v) _
              (set_member-kept d c.rounds inst name v)
              (λ assigned.
                Inside-check d s b assigned _ _ w (init_members-kept s b w n inst es rest h)))
  init_members-kept s b w n inst (Syntax.exprs e es) rest h = Inside-error d s b _ w

  finish_inst-kept :
      (s : SnukInterpreter F) (t : SnukType) (name : StringView) (weak : Bool) (h : ℕ)
      (inst : Value F)
      → Inside d s (pushed s) (finish_inst c t name weak h inst)
  unfolding finish_inst
  finish_inst-kept s t name weak h inst = created_then (d.pushes s) self_str t inst true _ _ (
      Inside-then d s (pushed s) (leave_object weak h) _ (leave_object-kept s weak h)
        (λ _. bind_name-kept name t inst _))

  inst_of_type-kept :
      (t : SnukType) (n : StringView) (init : Exprs F) (name : StringView) (weak : Bool)
      (v : Value F)
      → Holds d (inst_of_type c t n init name weak v)
  unfolding inst_of_type
  inst_of_type-kept t n init name weak (Values.type r) s =
      let h = (pushed s).frame.current in
      let inst = instance_of t r.closure h in
      init_members-kept s (pushed s) (d.pushes s) n inst init (finish_inst c t name weak h inst)
        (finish_inst-kept s t name weak h inst) (pushed s) (d.rel_refl (pushed s))
  inst_of_type-kept t n init name weak Values.unknown s = holds_error d _ s
  inst_of_type-kept t n init name weak _ s = holds_error d _ s

  pub inst-kept :
      (t : SnukType) (name : StringView) (init : Exprs F) (weak : Bool)
      → Holds d (execute_inst_creation c t name init weak)
  unfolding execute_inst_creation
  inst-kept t name init weak = holds_bind d (lift (type_name t)) _ (lift-kept d (type_name t)) λ n.
      holds_bind d (get_env c.rounds n) _ (get_env-kept d c.rounds n)
        (inst_of_type-kept t n init name weak)
