-- ===== src/Interpreter/Objects.antt =====
-- src/interpreter/interpreter.c: functions and calls, types, instances and their members.
-- src/interpreter/native.c and builtins/builtin_null.c: the functions that `null` has as members.
use Prim.Native.String.{String}
use snuk.Prelude.{
  ℕ, zero, suc, Bool, true, false, none, some, Outcome, ok, trap, wild, codes, if◌then◌else◌,
}
use snuk.Text.{StringView, equal}
use snuk.Types
use snuk.Types.{SnukType}
use snuk.Parser.Syntax
use snuk.Parser.Syntax.{SnukExpr, SnukItem, SnukVar, Items, Exprs, Vars}
use snuk.Values
use snuk.Values.{SnukValue}
use snuk.Interpreter.State
use snuk.Interpreter.State.{
  Native, Ref, Value, SnukInterpreter, is_none, I, fault, ◌>>=◌, ◌>>◌, pure, ask, change, lift,
  interpreter_check, interpreter_error, with_current, with_instance, current, push_scope, pop_scope,
  downgrade_if,
}
use snuk.Interpreter.Env
use snuk.Interpreter.Env.{
  get_value_type, has_type, is_type, is_unknown, is_inst, get_env, create_env, get_member,
  set_member,
}
use snuk.Interpreter.Calls.{Calls, name_of}
use snuk.Interpreter.Control.{signal}

abbrev pub self_str : StringView
self_str = record { str = codes "self"; len = 4 }

abbrev pub value_str : StringView
value_str = record { str = codes "value"; len = 5 }

-- The name of a type that is named.
unfoldable pub type_name : SnukType → Outcome StringView
type_name (Types.type_named n) = ok n
type_name _ = trap wild

-- A name of length 0 is no name.
unfoldable pub has_name : StringView → Bool
has_name name = elim (name.len) [ zero ↦ false | suc n ↦ true ]

module _ {F : Type 0} where
  abbrev pub is_fn : Value F → Bool
  is_fn (Values.fn r) = true
  is_fn (Values.fn_native r) = true
  is_fn _ = false

  -- What a function, a type or an instance refers to.
  abbrev pub ref_to : ℕ → SnukType → Ref F
  ref_to closure t = record {
    closure = closure;
    type = t;
    instance_scope = none;
    type_scope = none;
    body = Syntax.no_expr;
    native = State.other 0;
  }

module _ {F : Type 0} where
  -- The scope of the object that was made is left.
  unfoldable pub leave_object : Bool → ℕ → I F (Unit {0})
  unfolding pop_scope downgrade_if
  leave_object weak closure = pop_scope >> downgrade_if weak closure

  -- A value of a built-in type has the type's own values as its member `value`.
  unfoldable pub fits_builtin : StringView → StringView → Value F → Bool
  unfolding get_value_type has_type equal
  fits_builtin type_name name v = elim (get_value_type type_name) [
    | Env.unknown_type ↦ true
    | t ↦ if equal name value_str then has_type v t else true
  ]

  abbrev pub instance_of : SnukType → ℕ → ℕ → Value F
  instance_of t type_scope closure =
      Values.type_inst (record (ref_to closure t) { type_scope = some type_scope }) true

module _ {F : Type 0} (c : Calls F) where
  -- The binding of a declaration's name, where it has one.
  unfoldable pub bind_name : StringView → SnukType → Value F → String → I F (Value F)
  unfolding has_name create_env interpreter_check
  bind_name name t v msg =
      if has_name name
      then (create_env c.rounds name t v false >>= λ created.
          interpreter_check created msg (pure v))
      else pure v

  -- The items of a type, each of which leaves no signal, and the rest of the function.
  unfoldable pub member_items : Items F → I F (Value F) → I F (Value F)
  unfolding is_none interpreter_check
  member_items Syntax.no_items rest = rest
  member_items (Syntax.items i is) rest =
      c.exec_item i true
      >> (signal >>= λ g. interpreter_check (is_none g) "signal is not none" (member_items is rest))

  unfoldable pub execute_type_declaration : Items F → StringView → SnukType → Bool → I F (Value F)
  unfolding member_items bind_name leave_object
  execute_type_declaration members name t weak =
      push_scope
      >> member_items members (
          current >>= λ closure.
          leave_object weak closure
          >> bind_name name t (Values.type (ref_to closure t)) "type name is already used")

  -- The parameters of a function, and the rest.
  unfoldable pub fn_params : Vars F → I F (Value F) → I F (Value F)
  unfolding create_env interpreter_check
  fn_params Syntax.no_vars rest = rest
  fn_params (Syntax.vars (Syntax.snuk_var name t Syntax.no_expr) ps) rest =
      create_env c.rounds name t Values.unknown false >>= λ created.
      interpreter_check created "something went wrong while creating parameter" (fn_params ps rest)
  fn_params (Syntax.vars (Syntax.snuk_var name t e) ps) rest = c.eval_expr e false >>= λ v.
      create_env c.rounds name t v false >>= λ created.
      interpreter_check created "something went wrong while creating parameter" (fn_params ps rest)

  unfoldable pub execute_fn_expr :
      Vars F → SnukExpr F → StringView → SnukType → Bool → I F (Value F)
  unfolding fn_params bind_name leave_object
  execute_fn_expr params body name t weak =
      push_scope
      >> fn_params params (
          current >>= λ closure.
          leave_object weak closure
          >> bind_name name t (Values.fn (record (ref_to closure t) { body = body }))
              "function name is already used")

  -- The assignments of an instance's members, and the rest.
  unfoldable pub init_members : StringView → Value F → Exprs F → I F (Value F) → I F (Value F)
  unfolding name_of fits_builtin set_member interpreter_check interpreter_error
  init_members type_name inst Syntax.no_exprs rest = rest
  init_members type_name inst (Syntax.exprs Syntax.no_expr es) rest = λ s. fault wild
  init_members type_name inst (Syntax.exprs (Syntax.expr_assign identifier e) es) rest =
      lift (name_of identifier) >>= λ name. c.eval_expr e true >>= λ v.
      interpreter_check (fits_builtin type_name name v) "invalid value to the member value" (
        set_member c.rounds inst name v >>= λ assigned.
        interpreter_check assigned "failed to initialize member"
          (init_members type_name inst es rest))
  init_members type_name inst (Syntax.exprs e es) rest =
      interpreter_error "Expected assign expressions"

  -- The instance refers to itself as `self`.
  unfoldable pub finish_inst : SnukType → StringView → Bool → ℕ → Value F → I F (Value F)
  unfolding create_env interpreter_check leave_object bind_name
  finish_inst t name weak closure inst = create_env c.rounds self_str t inst true >>= λ created.
      interpreter_check created "something went wrong while creating self"
        (leave_object weak closure >> bind_name name t inst "type instance name already exists")

  unfoldable pub inst_of_type :
      SnukType → StringView → Exprs F → StringView → Bool → Value F → I F (Value F)
  unfolding init_members finish_inst interpreter_error
  inst_of_type t type_name init name weak (Values.type r) =
      push_scope
      >> (current >>= λ closure.
          init_members type_name (instance_of t r.closure closure) init
            (finish_inst t name weak closure (instance_of t r.closure closure)))
  inst_of_type t type_name init name weak _ =
      interpreter_error "type instance creation expression on non type"

  unfoldable pub execute_inst_creation : SnukType → StringView → Exprs F → Bool → I F (Value F)
  unfolding type_name get_env inst_of_type
  execute_inst_creation t name init weak =
      lift (type_name t) >>= λ n. get_env c.rounds n >>= inst_of_type t n init name weak
