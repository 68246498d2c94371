-- ===== src/Interpreter/Members.antt =====
-- src/interpreter/interpreter.c: members of values, assignments, extensions and interfaces.
-- src/interpreter/native.c and builtins/builtin_null.c: the functions that `null` has as members.
use snuk.Prelude.{
  ℕ, Bool, true, false, List, [], ◌∷◌, Option, none, some, ◌==◌, should_not_reach, wild, codes,
  length, to_word, if◌then◌else◌,
}
use snuk.Text.{StringView, create, equal_cstr}
use snuk.Types
use snuk.Types.{SnukType, Params, params_length}
use snuk.Parser.Syntax
use snuk.Parser.Syntax.{SnukExpr, Items}
use snuk.Lexer.Token.{TokenType}
use snuk.Lexer.Token
use snuk.Values
use snuk.Values.{SnukValue}
use snuk.Interpreter.State
use snuk.Interpreter.State.{
  Native, Ref, Value, I, fault, ◌>>=◌, ◌>>◌, pure, change, lift, interpreter_check,
  interpreter_error, with_current, current, push_scope,
}
use snuk.Interpreter.Env.{is_unknown, create_env, get_member, set_member, set_env}
use snuk.Interpreter.Calls.{Calls, name_of}
use snuk.Interpreter.Objects.{execute_inst_creation, member_items, leave_object, ref_to, value_str}

abbrev pub named : List ℕ → SnukType
named s = Types.type_named (record { str = s; len = length s })

-- The members of `null`: what they give, and the functions.
unfoldable pub null_entry : StringView → Option (SnukType × Native)
unfolding equal_cstr
null_entry field =
    if equal_cstr field (codes "to_int")
    then some (named (codes "int"), State.null_to_int)
    else if equal_cstr field (codes "to_float")
    then some (named (codes "float"), State.null_to_float)
    else if equal_cstr field (codes "to_bool")
    then some (named (codes "bool"), State.null_to_bool)
    else if equal_cstr field (codes "to_str")
    then some (named (codes "str"), State.null_to_str)
    else none

-- The parameters of a function in C, with their values.
pub record Parameter (F : Type 0) : Type 0 where
  pub name : List ℕ
  pub value : Value F

-- The operator of a compound assignment.
unfoldable pub compound_op : TokenType → Option TokenType
compound_op Token.plus_assign = some Token.plus
compound_op Token.minus_assign = some Token.minus
compound_op Token.star_assign = some Token.star
compound_op Token.slash_assign = some Token.slash
compound_op Token.percent_assign = some Token.percent
compound_op Token.amp_assign = some Token.amp
compound_op Token.pipe_assign = some Token.pipe
compound_op Token.caret_assign = some Token.caret
compound_op Token.lshift_assign = some Token.lshift
compound_op Token.rshift_assign = some Token.rshift
compound_op _ = none

module _ {F : Type 0} where
  -- A function that is taken from an instance is called with its scope.
  unfoldable pub with_instance_of : Value F → Value F → Value F
  with_instance_of (Values.type_inst r b) (Values.fn q) =
      Values.fn (record q { instance_scope = some r.closure })
  with_instance_of (Values.type_inst r b) (Values.fn_native q) =
      Values.fn_native (record q { instance_scope = some r.closure })
  with_instance_of v w = w

  unfoldable pub found_member : Value F → Value F → I F (Value F)
  unfolding with_instance_of is_unknown interpreter_error
  found_member inst Values.unknown = interpreter_error "couldn't get the member"
  found_member inst v = pure (with_instance_of inst v)

module _ {F : Type 0} (c : Calls F) where
  -- The parameters get the types that the function's type lists.
  unfoldable pub native_params : List (Parameter F) → Params → I F (Value F) → I F (Value F)
  unfolding create create_env
  native_params [] ts rest = rest
  native_params (p ∷ ps) Types.no_params rest = rest
  native_params (p ∷ ps) (Types.param t ts) rest =
      create_env c.rounds (create p.name) t p.value false
      >>= elim [ true ↦ native_params ps ts rest | false ↦ pure Values.unknown ]

  -- A number of parameters that the type does not have is found out in the new scope.
  unfoldable pub native_create_fn :
      List (Parameter F) → Params → SnukType → Native → Bool → I F (Value F)
  unfolding params_length native_params leave_object
  native_create_fn ps ts result native weak =
      push_scope
      >> (if length ps == params_length ts
          then native_params ps ts (
              current >>= λ closure.
              leave_object weak closure
              >> pure (
                  Values.fn_native
                    (record (ref_to closure (Types.type_fn ts result)) { native = native })))
          else pure Values.unknown)

  unfoldable pub create_null_member : Option (SnukType × Native) → Bool → I F (Value F)
  unfolding native_create_fn
  create_null_member none weak = pure Values.unknown
  create_null_member (some (result, native)) weak =
      native_create_fn [] Types.no_params result native weak

  unfoldable pub null_member : StringView → Bool → I F (Value F)
  unfolding null_entry create_null_member
  null_member field weak = create_null_member (null_entry field) weak

  -- An instance of a built-in type that holds the value.
  unfoldable pub box : SnukType → SnukExpr F → Bool → I F (Value F)
  unfolding execute_inst_creation
  box t e weak =
      execute_inst_creation c t (record { str = []; len = 0 })
        (Syntax.exprs (Syntax.expr_assign (Syntax.expr_identifier value_str) e) Syntax.no_exprs)
        weak

  unfoldable pub boxed_member : SnukType → SnukExpr F → StringView → Bool → I F (Value F)
  unfolding box get_member found_member
  boxed_member t e field weak = box t e weak >>= λ inst. get_member inst field >>= found_member inst

  unfoldable pub member_of : StringView → Bool → Value F → I F (Value F)
  unfolding get_member found_member null_member boxed_member
  member_of field weak (Values.type r) =
      get_member (Values.type r) field >>= found_member (Values.type r)
  member_of field weak (Values.type_inst r b) =
      get_member (Values.type_inst r b) field >>= found_member (Values.type_inst r b)
  member_of field weak Values.null = null_member field true >>= found_member Values.null
  member_of field weak (Values.int a) =
      boxed_member (named (codes "int")) (Syntax.expr_int (to_word a)) field weak
  member_of field weak (Values.float x) =
      boxed_member (named (codes "float")) (Syntax.expr_float x) field weak
  member_of field weak (Values.bool b) =
      boxed_member (named (codes "bool")) (Syntax.expr_bool b) field weak
  member_of field weak (Values.string v) =
      boxed_member (named (codes "str")) (Syntax.expr_string v) field weak
  member_of field weak _ = λ s. fault should_not_reach

  unfoldable pub execute_member_get : SnukExpr F → SnukExpr F → Bool → I F (Value F)
  unfolding name_of member_of
  execute_member_get e field weak =
      c.eval_expr e weak >>= λ v. lift (name_of field) >>= λ name. member_of name weak v

  unfoldable pub assign_to : SnukExpr F → Value F → Bool → I F (Value F)
  unfolding set_env set_member name_of interpreter_check
  assign_to (Syntax.expr_identifier name) v weak = set_env c.rounds name v >>= λ assigned.
      interpreter_check assigned "failed to set env value" (pure v)
  assign_to (Syntax.expr_member e field) v weak = c.eval_expr e weak >>= λ inst.
      lift (name_of field) >>= λ name. set_member c.rounds inst name v >>= λ assigned.
      interpreter_check assigned "failed to set env value" (pure v)
  assign_to _ v weak = λ s. fault should_not_reach

  unfoldable pub execute_assign_expr : SnukExpr F → SnukExpr F → Bool → I F (Value F)
  unfolding assign_to
  execute_assign_expr target e weak = c.eval_expr e weak >>= λ v. assign_to target v weak

  -- Without an operator an uninitialized variable is read.
  unfoldable pub execute_compound_binary_op :
      TokenType → SnukExpr F → SnukExpr F → Bool → I F (Value F)
  unfolding compound_op
  execute_compound_binary_op op target e weak = elim (compound_op op) [
    | some o ↦ c.eval_expr (Syntax.expr_assign target (Syntax.expr_binary o target e)) weak
    | none ↦ λ s. fault wild
  ]

  -- The members are executed in the scope of the type.
  unfoldable pub extend_type : Items F → Value F → I F (Value F)
  unfolding member_items interpreter_error
  extend_type members (Values.type r) = current >>= λ temp.
      change (with_current r.closure)
      >> member_items c members (change (with_current temp) >> pure (Values.type r))
  extend_type members _ = interpreter_error "trying to extend non type"

  unfoldable pub execute_extend : SnukExpr F → Items F → Bool → I F (Value F)
  unfolding extend_type
  execute_extend e members weak = c.eval_expr e weak >>= extend_type members

  unfoldable pub execute_interface : StringView → SnukType → Bool → I F (Value F)
  unfolding create_env interpreter_check
  execute_interface name t weak =
      create_env c.rounds name t (Values.interface (ref_to 0 t)) false >>= λ created.
      interpreter_check created "failed to create interface" (pure (Values.interface (ref_to 0 t)))
