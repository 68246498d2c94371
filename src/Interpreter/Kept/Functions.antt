-- ===== src/Interpreter/Kept/Functions.antt =====
-- src/interpreter/interpreter.c: calls, members, assignments and extensions keep every relation that
-- the steps respect.
use snuk.Prelude.{
  ℕ, suc, Bool, true, false, not, List, [], ◌∷◌, Option, none, some, ok, trap, ◌≡◌, refl, length,
  take, leb,
}
use snuk.Text.{StringView}
use snuk.Types.{SnukType}
use snuk.Parser.Syntax
use snuk.Parser.Syntax.{SnukExpr, Items, Exprs}
use snuk.Values
use snuk.Scopes.{SnukEnv, snuk_scope_lookup, interpreter_pop_scope}
use snuk.Interpreter.State.{
  Ref, Value, SnukInterpreter, I, done, fault, bind, ◌>>=◌, ◌>>◌, pure, lift, pushed, current,
  pop_scope, with_frame, with_current, with_instance, change,
}
use snuk.Interpreter.Env.{is_unknown}
use snuk.Interpreter.Calls.{Calls, name_of}
use snuk.Interpreter.Control.{returns, nothing}
use snuk.Interpreter.Functions.{
  length_exprs, nth, entered, bind_arg, bind_named, bind_positional, bind_args, bind_default,
  bind_missing, bind_defaults, run_fn, call_body, call_with, call_value, execute_call_expr,
}
use snuk.Interpreter.Laws.{
  Discipline, Post, Holds, Inside, Post-bind, Inside-bind, Inside-check, Inside-error, holds_bind,
  holds_error,
}
use snuk.Interpreter.Kept.Control.{CallsKeep, lift-kept, block-kept}
use snuk.Interpreter.Kept.Objects.{created_then}

module _ {F : Type 0} (d : Discipline F) (c : Calls F) (ck : CallsKeep d c) where
  bind_arg-kept :
      (s b : SnukInterpreter F)
      → d.Weak s b
      → (name : StringView) (t : SnukType) (e : SnukExpr F) (rest : I F (Value F))
      → Inside d s b rest
      → Inside d s b (bind_arg c name t e rest)
  unfolding bind_arg
  bind_arg-kept s b w name t e rest h =
      Inside-bind d s b (c.eval_expr e true) _ (ck.eval e true)
        (λ v. created_then d c ck w name t v false _ rest h)

  bind_named-kept :
      (s b : SnukInterpreter F)
      → d.Weak s b
      → (o : Option (SnukEnv (Value F))) (name : StringView) (e : SnukExpr F) (rest : I F (Value F))
      → Inside d s b rest
      → Inside d s b (bind_named c o name e rest)
  unfolding bind_named
  bind_named-kept s b w none name e rest h = Inside-error d s b _ w
  bind_named-kept s b w (some env) name e rest h = bind_arg-kept s b w name env.type e rest h

  bind_positional-kept :
      (s b : SnukInterpreter F)
      → d.Weak s b
      → (o : Option (SnukEnv (Value F))) (e : SnukExpr F) (rest : I F (Value F)) → Inside d s b rest
      → Inside d s b (bind_positional c o e rest)
  unfolding bind_positional
  bind_positional-kept s b w none e rest h = λ t r. tt
  bind_positional-kept s b w (some env) e rest h = bind_arg-kept s b w env.name env.type e rest h

  bind_args-kept :
      (s b : SnukInterpreter F)
      → d.Weak s b
      → (closure i : ℕ) (named : Bool) (es : Exprs F) (rest : I F (Value F)) → Inside d s b rest
      → Inside d s b (bind_args c closure i named es rest)
  unfolding bind_args
  bind_args-kept s b w closure i named Syntax.no_exprs rest h = h
  bind_args-kept s b w closure i named (Syntax.exprs (Syntax.expr_assign x e) es) rest h =
      Inside-bind d s b (lift (name_of x)) _ (lift-kept d (name_of x)) λ name t.
        bind_named-kept s b w (snuk_scope_lookup t.store closure name) name e _
          (bind_args-kept s b w closure (suc i) true es rest h) t
  bind_args-kept s b w closure i named (Syntax.exprs (Syntax.expr_compound_assign op l r) es) rest
        h =
      λ t r. tt
  bind_args-kept s b w closure i true (Syntax.exprs e es) rest h = λ t r. tt
  bind_args-kept s b w closure i false (Syntax.exprs e es) rest h = λ t.
      bind_positional-kept s b w (nth (t.store.scopes closure).vars i) e _
        (bind_args-kept s b w closure (suc i) false es rest h) t

  bind_default-kept :
      (s b : SnukInterpreter F)
      → d.Weak s b
      → (env : SnukEnv (Value F)) (rest : I F (Value F)) → Inside d s b rest
      → Inside d s b (bind_default c env rest)
  unfolding bind_default
  bind_default-kept s b w env rest h =
      Inside-check d s b (not (is_unknown env.value)) _ _ w
        (created_then d c ck w env.name env.type env.value false _ rest h)

  bind_missing-kept :
      (s b : SnukInterpreter F)
      → d.Weak s b
      → (o : Option (SnukEnv (Value F))) (env : SnukEnv (Value F)) (rest : I F (Value F))
      → Inside d s b rest
      → Inside d s b (bind_missing c o env rest)
  unfolding bind_missing
  bind_missing-kept s b w (some e) env rest h = h
  bind_missing-kept s b w none env rest h = bind_default-kept s b w env rest h

  bind_defaults-kept :
      (s b : SnukInterpreter F)
      → d.Weak s b
      → (envs : List (SnukEnv (Value F))) (rest : I F (Value F)) → Inside d s b rest
      → Inside d s b (bind_defaults c envs rest)
  unfolding bind_defaults
  bind_defaults-kept s b w [] rest h = h
  bind_defaults-kept s b w (env ∷ envs) rest h = λ t.
      bind_missing-kept s b w (snuk_scope_lookup t.store t.frame.current env.name) env _
        (bind_defaults-kept s b w envs rest h) t

  run_fn-kept : (v : Value F) → Holds d (run_fn c v)
  unfolding run_fn
  run_fn-kept (Values.fn r) s = block-kept d c ck r.body returns nothing false s
  run_fn-kept (Values.fn_native r) s = ck.native r.native s
  run_fn-kept _ s = tt

  call_body-kept :
      (s : SnukInterpreter F) (i : Option ℕ) (v : Value F) (closure : ℕ)
      → Inside d s (pushed (with_instance i s)) (call_body c v closure s.frame.instance_scope)
  unfolding call_body pop_scope
  call_body-kept s i v closure t r =
      elim (interpreter_pop_scope t.store t.frame)
          as (λ o.
            interpreter_pop_scope t.store t.frame ≡ o
            → Post (d.Rel s) (
                bind (elim o [ ok f ↦ done tt (with_frame f t) | trap e ↦ fault e ])
                  (λ _. current >>= λ temp.
                    change (entered t.frame.current closure)
                    >> (run_fn c v >>= λ ret.
                        change (λ u. with_instance s.frame.instance_scope (with_current temp u))
                        >> pure ret)))) [
                          | ok f ↦ λ p.
                              let t₁ = entered t.frame.current closure (with_frame f t) in
                              Post-bind d (d.Rel s) t₁ (run_fn c v t₁) _ (run_fn-kept v t₁)
                                (λ ret u q. d.calls s t u i closure f r p q)
                          | trap e ↦ λ p. tt
                        ]
        refl

  call_with-kept : (v : Value F) (r : Ref F) (args : Exprs F) → Holds d (call_with c v r args)
  unfolding call_with
  call_with-kept v r args s =
      let s₁ = with_instance r.instance_scope s in
      let w = d.weak_trans (d.moves s s₁.frame) (d.pushes s₁) in
      let vs = ((pushed s₁).store.scopes r.closure).vars in
      Inside-check d s (pushed s₁) (leb (length_exprs args) (length vs)) _ _ w
        (bind_args-kept s (pushed s₁) w r.closure 0 false args _ (λ t.
          bind_defaults-kept s (pushed s₁) w (take (length vs) (t.store.scopes r.closure).vars) _
            (call_body-kept s r.instance_scope v r.closure) t))
        (pushed s₁) (d.rel_refl (pushed s₁))

  call_value-kept : (args : Exprs F) (v : Value F) → Holds d (call_value c args v)
  unfolding call_value
  call_value-kept args (Values.fn r) s = call_with-kept (Values.fn r) r args s
  call_value-kept args (Values.fn_native r) s = call_with-kept (Values.fn_native r) r args s
  call_value-kept args _ s = holds_error d _ s

  pub call-kept :
      (callee : SnukExpr F) (args : Exprs F) (weak : Bool)
      → Holds d (execute_call_expr c callee args weak)
  unfolding execute_call_expr
  call-kept callee args weak =
      holds_bind d (c.eval_expr callee weak) _ (ck.eval callee weak) (call_value-kept args)
