-- ===== src/Interpreter/Laws.antt =====
-- src/interpreter/interpreter.c: relations between the state in front of an evaluation and the state
-- behind it that the steps of the interpreter respect, and the runs of steps that keep them.
use Prim.Native.String.{String}
use snuk.Prelude.{ℕ, Bool, true, false, Option, none, some, Outcome, ok, trap, List, ◌≡◌}
use snuk.Text.{StringView}
use snuk.Types.{SnukType}
use snuk.Scopes.{
  SnukEnv, Store, Frame, snuk_scope_lookup, snuk_scope_add_env, snuk_env_create,
  snuk_scope_downgrade_parent, interpreter_pop_scope,
}
use snuk.Interpreter.State.{
  Value, SnukSignal, Printed, SnukInterpreter, Run, done, fault, out_of_rounds, I, bind, ◌>>=◌,
  raise_error, interpreter_error, interpreter_check, with_frame, with_current, with_instance,
  pushed, read,
}
use snuk.Interpreter.Env.{answer, value_is_of_type, assign_at}
use snuk.Interpreter.Functions.{entered}

-- The state where a run is done.
abbrev pub Post : {F A : Type 0} → (SnukInterpreter F → Type 0) → Run F A → Type 0
Post Q (done a s) = Q s
Post Q (fault e) = Unit
Post Q out_of_rounds = Unit

-- `Rel` holds across a function that comes to its end, `Weak` also inside of one.
pub record Discipline (F : Type 0) : Type 1 where
  pub Rel : SnukInterpreter F → SnukInterpreter F → Type 0
  pub Weak : SnukInterpreter F → SnukInterpreter F → Type 0
  pub rel_refl : (s : SnukInterpreter F) → Rel s s
  pub rel_trans : {s t u : SnukInterpreter F} → Rel s t → Rel t u → Rel s u
  pub weaken : {s t : SnukInterpreter F} → Rel s t → Weak s t
  pub weak_trans : {s t u : SnukInterpreter F} → Weak s t → Weak t u → Weak s u
  pub pushes : (s : SnukInterpreter F) → Weak s (pushed s)
  pub moves : (s : SnukInterpreter F) (f : Frame) → Weak s (with_frame f s)
  pub panics : {s t : SnukInterpreter F} (msg : String) → Weak s t → Rel s (raise_error msg t)
  pub signals : (s : SnukInterpreter F) (g : SnukSignal) → Rel s (record s { signal = g })
  pub prints : (s : SnukInterpreter F) (o : List (Printed F)) → Rel s (record s { output = o })
  pub assigns :
      (s : SnukInterpreter F) (rounds h : ℕ) (name : StringView) (e : SnukEnv (Value F))
      (v : Value F)
      → snuk_scope_lookup s.store h name ≡ some e
      → value_is_of_type rounds s.store s.frame v e.type ≡ answer true
      → Rel s (record s { store = assign_at h name v s.store })
  pub adds :
      (s : SnukInterpreter F) (rounds h : ℕ) (name : StringView) (t : SnukType) (v : Value F)
      → value_is_of_type rounds s.store s.frame v t ≡ answer true
      → Rel s (record s { store = (snuk_scope_add_env h (snuk_env_create name t v) s.store).0 })
  pub downgrades :
      (s : SnukInterpreter F) (h : ℕ) (st : Store (Value F))
      → snuk_scope_downgrade_parent h s.store ≡ ok st
      → Rel s (record s { store = st })
  pub scopes :
      (s t : SnukInterpreter F) (f : Frame)
      → Rel (pushed s) t
      → interpreter_pop_scope t.store t.frame ≡ ok f
      → Rel s (with_frame f t)
  pub calls :
      (s t u : SnukInterpreter F) (i : Option ℕ) (closure : ℕ) (f : Frame)
      → Rel (pushed (with_instance i s)) t
      → interpreter_pop_scope t.store t.frame ≡ ok f
      → Rel (entered t.frame.current closure (with_frame f t)) u
      → Rel s (with_instance s.frame.instance_scope (with_current f.current u))
  pub extends :
      (s t : SnukInterpreter F) (h : ℕ)
      → Rel (with_current h s) t
      → Rel s (with_current s.frame.current t)

module _ {F : Type 0} (d : Discipline F) where
  abbrev pub Holds : {A : Type 0} → I F A → Type 0
  Holds m = (s : SnukInterpreter F) → Post (d.Rel s) (m s)

  -- A run from a state inside of a region that began in `s` and whose own part began in `b`.
  abbrev pub Inside : {A : Type 0} → SnukInterpreter F → SnukInterpreter F → I F A → Type 0
  Inside s b m = (t : SnukInterpreter F) → d.Rel b t → Post (d.Rel s) (m t)

  pub Post-bind :
      {A B : Type 0} (Q : SnukInterpreter F → Type 0) (t : SnukInterpreter F) (r : Run F A)
      (f : A → I F B)
      → Post (d.Rel t) r
      → ((a : A) (u : SnukInterpreter F) → d.Rel t u → Post Q (f a u))
      → Post Q (bind r f)
  Post-bind Q t (done a s) f h k = k a s h
  Post-bind Q t (fault e) f h k = tt
  Post-bind Q t out_of_rounds f h k = tt

  pub Inside-bind :
      {A B : Type 0} (s b : SnukInterpreter F) (m : I F A) (f : A → I F B)
      → Holds m
      → ((a : A) → Inside s b (f a))
      → Inside s b (m >>= f)
  Inside-bind s b m f h k t r =
      Post-bind (d.Rel s) t (m t) f (h t) (λ a u p. k a u (d.rel_trans r p))

  pub holds_inside : {A : Type 0} (m : I F A) → ((s : SnukInterpreter F) → Inside s s m) → Holds m
  holds_inside m h s = h s s (d.rel_refl s)

  pub Inside-holds : {A : Type 0} (s : SnukInterpreter F) (m : I F A) → Holds m → Inside s s m
  Inside-holds s m h t r = weaken_post (m t) (h t)
    where
      weaken_post : {A : Type 0} (x : Run F A) → Post (d.Rel t) x → Post (d.Rel s) x
      weaken_post (done a u) p = d.rel_trans r p
      weaken_post (fault e) p = tt
      weaken_post out_of_rounds p = tt

  pub Inside-then :
      {A B : Type 0} (s b : SnukInterpreter F) (m : I F A) (f : A → I F B)
      → Inside s b m
      → ((a : A) → Holds (f a))
      → Inside s b (m >>= f)
  Inside-then s b m f h k t r =
      Post-bind (d.Rel s) s (m t) f (h t r) (λ a u p. Inside-holds s (f a) (k a) u p)

  pub holds_bind :
      {A B : Type 0} (m : I F A) (f : A → I F B)
      → Holds m
      → ((a : A) → Holds (f a))
      → Holds (m >>= f)
  holds_bind m f h k =
      holds_inside (m >>= f) (λ s. Inside-bind s s m f h (λ a. Inside-holds s (f a) (k a)))

  pub Inside-error :
      (s b : SnukInterpreter F) (msg : String) → d.Weak s b → Inside s b (interpreter_error msg)
  unfolding interpreter_error
  Inside-error s b msg w t r = d.panics msg (d.weak_trans w (d.weaken r))

  pub Inside-check :
      (s b : SnukInterpreter F) (cond : Bool) (msg : String) (rest : I F (Value F))
      → d.Weak s b
      → Inside s b rest
      → Inside s b (interpreter_check cond msg rest)
  unfolding interpreter_check
  Inside-check s b true msg rest w h = h
  Inside-check s b false msg rest w h = Inside-error s b msg w

  pub holds_error : (msg : String) → Holds (interpreter_error msg)
  holds_error msg s = Inside-error s s msg (d.weaken (d.rel_refl s)) s (d.rel_refl s)

  pub holds_check :
      (cond : Bool) (msg : String) (rest : I F (Value F))
      → Holds rest
      → Holds (interpreter_check cond msg rest)
  unfolding interpreter_check
  holds_check true msg rest h = h
  holds_check false msg rest h = holds_error msg

  -- What only looks at the state.
  pub holds_read :
      {A : Type 0} (r : SnukInterpreter F → Option (Outcome A)) → Holds (λ s. read (r s) s)
  holds_read r s = read_lem (r s)
    where
      read_lem : {A : Type 0} (x : Option (Outcome A)) → Post (d.Rel s) (read x s)
      read_lem none = tt
      read_lem (some (ok a)) = d.rel_refl s
      read_lem (some (trap e)) = tt
