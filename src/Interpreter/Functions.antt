-- ===== src/Interpreter/Functions.antt =====
-- src/interpreter/interpreter.c: calls, members and extensions.
-- src/interpreter/native.c and builtins/builtin_null.c: the functions that `null` has as members.
use snuk.Prelude.{
  ℕ, zero, suc, Bool, true, false, not, List, [], ◌∷◌, Option, none, some, wild, length, take, leb,
}
use snuk.Text.{StringView}
use snuk.Types.{SnukType}
use snuk.Parser.Syntax
use snuk.Parser.Syntax.{SnukExpr, Items, Exprs}
use snuk.Values
use snuk.Values.{SnukValue}
use snuk.Scopes.{SnukEnv, snuk_scope_lookup, snuk_scope_set_parent}
use snuk.Interpreter.State.{
  Ref, Value, SnukInterpreter, I, fault, ◌>>=◌, ◌>>◌, pure, ask, change, lift, interpreter_check,
  interpreter_error, with_current, with_instance, current, push_scope, pop_scope,
}
use snuk.Interpreter.Env.{is_unknown, create_env}
use snuk.Interpreter.Calls.{Calls, name_of}
use snuk.Interpreter.Control.{execute_block_expr, returns, nothing}

unfoldable pub length_exprs : {F : Type 0} → Exprs F → ℕ
length_exprs Syntax.no_exprs = 0
length_exprs (Syntax.exprs e es) = suc (length_exprs es)

unfoldable pub nth : {A : Type 0} → List A → ℕ → Option A
nth [] i = none
nth (x ∷ xs) zero = some x
nth (x ∷ xs) (suc i) = nth xs i

module _ {F : Type 0} where
  abbrev pub vars_of : ℕ → I F (List (SnukEnv (Value F)))
  vars_of h = ask (λ s. (s.store.scopes h).vars)

  -- The scope whose parameters were bound gets the closure as its parent, and becomes the current one.
  unfoldable pub entered : ℕ → ℕ → SnukInterpreter F → SnukInterpreter F
  unfolding snuk_scope_set_parent
  entered new_scope closure s =
      with_current new_scope
        (record s { store = snuk_scope_set_parent new_scope (some closure) false s.store })

module _ {F : Type 0} (c : Calls F) where
  -- A parameter gets the value of an expression.
  unfoldable pub bind_arg : StringView → SnukType → SnukExpr F → I F (Value F) → I F (Value F)
  unfolding create_env interpreter_check
  bind_arg name t e rest = c.eval_expr e true >>= λ v.
      create_env c.rounds name t v false >>= λ created.
      interpreter_check created "something went wrong while creating parameter" rest

  unfoldable pub bind_named :
      Option (SnukEnv (Value F)) → StringView → SnukExpr F → I F (Value F) → I F (Value F)
  unfolding bind_arg interpreter_error
  bind_named none name e rest = interpreter_error "parameter doesn't exists"
  bind_named (some env) name e rest = bind_arg name env.type e rest

  unfoldable pub bind_positional :
      Option (SnukEnv (Value F)) → SnukExpr F → I F (Value F) → I F (Value F)
  unfolding bind_arg
  bind_positional none e rest = λ s. fault wild
  bind_positional (some env) e rest = bind_arg env.name env.type e rest

  -- The arguments from the index on, and the rest. Behind a named argument, one without a name has the
  -- name, the type and the value of uninitialized variables.
  unfoldable pub bind_args : ℕ → ℕ → Bool → Exprs F → I F (Value F) → I F (Value F)
  unfolding name_of bind_named bind_positional nth snuk_scope_lookup
  bind_args closure i named Syntax.no_exprs rest = rest
  bind_args closure i named (Syntax.exprs (Syntax.expr_assign identifier e) es) rest =
      lift (name_of identifier) >>= λ name.
      ask (λ s. snuk_scope_lookup s.store closure name) >>= λ env.
      bind_named env name e (bind_args closure (suc i) true es rest)
  bind_args closure i named (Syntax.exprs (Syntax.expr_compound_assign op l r) es) rest =
      λ s. fault wild
  bind_args closure i true (Syntax.exprs e es) rest = λ s. fault wild
  bind_args closure i false (Syntax.exprs e es) rest = vars_of closure >>= λ vs.
      bind_positional (nth vs i) e (bind_args closure (suc i) false es rest)

  -- The parameter has the value that the function was declared with.
  unfoldable pub bind_default : SnukEnv (Value F) → I F (Value F) → I F (Value F)
  unfolding is_unknown create_env interpreter_check
  bind_default env rest = interpreter_check (not (is_unknown env.value)) "parameter was not given" (
      create_env c.rounds env.name env.type env.value false >>= λ created.
      interpreter_check created "something went wrong" rest)

  unfoldable pub bind_missing :
      Option (SnukEnv (Value F)) → SnukEnv (Value F) → I F (Value F) → I F (Value F)
  unfolding bind_default
  bind_missing (some e) env rest = rest
  bind_missing none env rest = bind_default env rest

  unfoldable pub bind_defaults : List (SnukEnv (Value F)) → I F (Value F) → I F (Value F)
  unfolding bind_missing snuk_scope_lookup
  bind_defaults [] rest = rest
  bind_defaults (env ∷ envs) rest =
      ask (λ s. snuk_scope_lookup s.store s.frame.current env.name) >>= λ found.
      bind_missing found env (bind_defaults envs rest)

  -- The body of a function, which catches `return`, or the function in C.
  unfoldable pub run_fn : Value F → I F (Value F)
  unfolding execute_block_expr
  run_fn (Values.fn r) = execute_block_expr c r.body returns nothing false
  run_fn (Values.fn_native r) = c.call_native r.native
  run_fn _ = λ s. fault wild

  -- Behind the binding of the parameters. The scope that was current and the instance come back.
  unfoldable pub call_body : Value F → ℕ → Option ℕ → I F (Value F)
  unfolding pop_scope entered run_fn
  call_body callee closure prev_instance = current >>= λ new_scope.
      pop_scope
      >> (current >>= λ temp.
          change (entered new_scope closure)
          >> (run_fn callee >>= λ ret.
              change (λ s. with_instance prev_instance (with_current temp s)) >> pure ret))

  unfoldable pub call_with : Value F → Ref F → Exprs F → I F (Value F)
  unfolding length_exprs bind_args bind_defaults call_body interpreter_check
  call_with callee r args = ask (λ s. s.frame.instance_scope) >>= λ prev_instance.
      change (with_instance r.instance_scope)
      >> (push_scope
          >> (vars_of r.closure >>= λ vs.
              interpreter_check (leb (length_exprs args) (length vs)) "param count mismatch" (
                bind_args r.closure 0 false args (
                  vars_of r.closure >>= λ params.
                  bind_defaults (take (length vs) params)
                    (call_body callee r.closure prev_instance)))))

  unfoldable pub call_value : Exprs F → Value F → I F (Value F)
  unfolding call_with interpreter_error
  call_value args (Values.fn r) = call_with (Values.fn r) r args
  call_value args (Values.fn_native r) = call_with (Values.fn_native r) r args
  call_value args _ = interpreter_error "call expression on non function"

  unfoldable pub execute_call_expr : SnukExpr F → Exprs F → Bool → I F (Value F)
  unfolding call_value
  execute_call_expr callee args weak = c.eval_expr callee weak >>= call_value args
