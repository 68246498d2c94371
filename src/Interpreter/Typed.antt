-- ===== src/Interpreter/Typed.antt =====
-- src/interpreter/interpreter.c: every binding has a value of a kind that fits the type it was declared with.
use Prim.Native.String.{String}
use mathlib.Core.Path.{subst}
use snuk.Prelude.{
  ℕ, zero, suc, Bool, true, false, ◌||◌, List, [], ◌∷◌, ◌++◌, Option, none, some, ok, ◌≡◌, refl,
  sym, ap, ◌∙◌, inl, inr, ◌==◌, Option-cases, if◌then◌else◌,
}
use snuk.Text.{StringView, equal}
use snuk.Types
use snuk.Types.{SnukType, Members, type_equal}
use snuk.Parser.Syntax.{SnukItem}
use snuk.Values
use snuk.Values.{Floats}
use snuk.Scopes.{
  SnukEnv, SnukScope, Store, Frame, set_scope, lookup_in, snuk_scope_lookup, snuk_scope_add_env,
  snuk_env_create, snuk_env_assign_value, snuk_scope_downgrade_parent, snuk_scope_create,
  snuk_scope_set_parent, interpreter_push_scope,
}
use snuk.Scopes.Inverse.{downgrade-inverse, some_inj}
use snuk.Interpreter.State.{
  Ref, Value, SnukInterpreter, Run, done, I, pushed, raise_error, with_frame,
}
use snuk.Interpreter.Env.{
  Answer, answer, value_is_of_type, known_is_of_type, has_type, get_value_type, type_value, fn_is,
  type_is, interface_is, assign_at, assign_in,
}
use snuk.Interpreter.Functions.{entered}
use snuk.Interpreter.Whole.{calls_of}
use snuk.Interpreter.Laws.{Discipline, Post}
use snuk.Interpreter.Kept.Whole.{calls_of-kept}

module _ {F : Type 0} where
  abbrev pub is_object : Value F → Bool
  is_object (Values.type r) = true
  is_object (Values.type_inst r b) = true
  is_object _ = false

  abbrev pub is_interface : Value F → SnukType → Bool
  is_interface (Values.interface r) t = type_equal t r.type
  is_interface v t = is_object v

  -- What a declared type says of a value whatever the scopes hold. Of a number, a bool, a string, a
  -- function or an interface it says all: that it has the built-in type of this name, is a function of
  -- this type, or is this interface. Of a type or an instance it says only that the annotation is a name
  -- or an interface, since what a name stands for is in the scopes.
  abbrev pub known_kind_fits : Value F → SnukType → Bool
  known_kind_fits v Types.no_type = false
  known_kind_fits v Types.type_any = true
  known_kind_fits v Types.type_type = type_is v Types.type_type
  known_kind_fits v (Types.type_named n) = has_type v (get_value_type n) || is_object v
  known_kind_fits v (Types.type_fn ps r) = fn_is v (Types.type_fn ps r)
  known_kind_fits v (Types.type_interface ms) = is_interface v (Types.type_interface ms)

  abbrev pub kind_fits : Value F → SnukType → Bool
  kind_fits Values.unknown t = true
  kind_fits Values.null t = true
  kind_fits v t = known_kind_fits v t

  abbrev pub AllFit : List (SnukEnv (Value F)) → Type 0
  AllFit [] = Unit {0}
  AllFit (e ∷ es) = (kind_fits e.value e.type ≡ true) × AllFit es

  abbrev pub WellKinded : Store (Value F) → Type 0
  WellKinded st = (h : ℕ) → AllFit (st.scopes h).vars

  object_of : (v : Value F) (r : Ref F) → type_value v ≡ some r → is_object v ≡ true
  unfolding type_value
  object_of (Values.type q) r p = refl
  object_of (Values.type_inst q b) r p = refl
  object_of Values.unknown r p = cc
  object_of _ r p = cc

  named_fits :
      (v : Value F) (b : Bool) (o : Option (Ref F)) (k : Ref F → Answer)
      → type_value v ≡ o
      → (if b then answer true else elim o [ none ↦ answer false | some r ↦ k r ]) ≡ answer true
      → (b || is_object v) ≡ true
  named_fits v true o k q p = refl
  named_fits v false none k q p = absurd (cc)
  named_fits v false (some r) k q p = object_of v r q

  interface_fits :
      (again : Value F → SnukType → Answer) (st : Store (Value F)) (v : Value F) (ms : Members)
      → interface_is again st v ms ≡ answer true
      → is_interface v (Types.type_interface ms) ≡ true
  unfolding interface_is
  interface_fits again st (Values.interface r) ms p = cc
  interface_fits again st (Values.type r) ms p = refl
  interface_fits again st (Values.type_inst r b) ms p = refl
  interface_fits again st _ ms p = cc

  known_fits :
      (again : Value F → SnukType → Answer) (rounds : ℕ) (st : Store (Value F)) (f : Frame)
      (v : Value F) (t : SnukType)
      → known_is_of_type again rounds st f v t ≡ answer true
      → known_kind_fits v t ≡ true
  unfolding known_is_of_type
  known_fits again rounds st f v Types.no_type p = cc
  known_fits again rounds st f v Types.type_any p = refl
  known_fits again rounds st f v Types.type_type p = cc
  known_fits again rounds st f v (Types.type_named n) p =
      named_fits v (has_type v (get_value_type n)) (type_value v) _ refl p
  known_fits again rounds st f v (Types.type_fn ps r) p = cc
  known_fits again rounds st f v (Types.type_interface ms) p = interface_fits again st v ms p

  -- A value that passes the test of the interpreter is of a kind that fits the type.
  pub value_is_of_type-fits :
      (rounds : ℕ) (st : Store (Value F)) (f : Frame) (v : Value F) (t : SnukType)
      → value_is_of_type rounds st f v t ≡ answer true
      → kind_fits v t ≡ true
  unfolding value_is_of_type
  value_is_of_type-fits zero st f v t p = absurd (cc)
  value_is_of_type-fits (suc rounds) st f Values.unknown t p = refl
  value_is_of_type-fits (suc rounds) st f Values.null t p = refl
  value_is_of_type-fits (suc rounds) st f v t p =
      known_fits (value_is_of_type rounds st f) rounds st f v t p

  AllFit-append :
      (es : List (SnukEnv (Value F))) (e : SnukEnv (Value F))
      → AllFit es
      → kind_fits e.value e.type ≡ true
      → AllFit (es ++ (e ∷ []))
  AllFit-append [] e h p = (p, tt)
  AllFit-append (x ∷ es) e (q, h) p = (q, AllFit-append es e h p)

  assign_in-AllFit :
      (es : List (SnukEnv (Value F))) (name : StringView) (v : Value F) (e : SnukEnv (Value F))
      → lookup_in es name ≡ some e
      → kind_fits v e.type ≡ true
      → AllFit es
      → AllFit (assign_in es name v)
  unfolding assign_in lookup_in snuk_env_assign_value
  assign_in-AllFit [] name v e p q h = tt
  assign_in-AllFit (x ∷ es) name v e p q (r, h) =
      first (equal x.name name) p (λ k. assign_in-AllFit es name v e k q h)
    where
      first :
          (b : Bool)
          → (if b then some x else lookup_in es name) ≡ some e
          → (lookup_in es name ≡ some e → AllFit (assign_in es name v))
          → AllFit (if b then snuk_env_assign_value v x ∷ es else (x ∷ assign_in es name v))
      first true k ih = (
        ap (λ (t : SnukType). kind_fits v t) (ap (λ (y : SnukEnv (Value F)). y.type) (some_inj k))
            ∙ q,
        h,
      )
      first false k ih = (r, ih k)

  set_scope-WellKinded :
      (h : ℕ) (s : SnukScope (Value F)) (st : Store (Value F))
      → AllFit s.vars
      → WellKinded st
      → WellKinded (set_scope h s st)
  set_scope-WellKinded h s st p w i = either (i == h)
    where
      either : (b : Bool) → AllFit (if b then s else st.scopes i).vars
      either true = p
      either false = w i

  assign-WellKinded :
      (rounds h : ℕ) (f : Frame) (name : StringView) (e : SnukEnv (Value F)) (v : Value F)
      (st : Store (Value F))
      → snuk_scope_lookup st h name ≡ some e
      → value_is_of_type rounds st f v e.type ≡ answer true
      → WellKinded st
      → WellKinded (assign_at h name v st)
  unfolding assign_at snuk_scope_lookup
  assign-WellKinded rounds h f name e v st p q w =
      set_scope-WellKinded h _ st
        (assign_in-AllFit (st.scopes h).vars name v e p
          (value_is_of_type-fits rounds st f v e.type q) (w h))
        w

  add-WellKinded :
      (rounds h : ℕ) (f : Frame) (name : StringView) (t : SnukType) (v : Value F)
      (st : Store (Value F))
      → value_is_of_type rounds st f v t ≡ answer true
      → WellKinded st
      → WellKinded (snuk_scope_add_env h (snuk_env_create name t v) st).0
  unfolding snuk_env_create snuk_scope_add_env
  add-WellKinded rounds h f name t v st q w =
      let e = snuk_env_create name t v in
      elim (Option-cases (snuk_scope_lookup st h name)) [
        | inl free ↦
            rw (free, snuk_scope_add_env)
              (set_scope-WellKinded h
                (record (st.scopes h) { vars = (st.scopes h).vars ++ (e ∷ []) }) st
                (AllFit-append (st.scopes h).vars e (w h) (value_is_of_type-fits rounds st f v t q))
                w)
        | inr (found, p) ↦ rw (p, snuk_scope_add_env) w
      ]

  downgrade-WellKinded :
      (h : ℕ) (st su : Store (Value F))
      → snuk_scope_downgrade_parent h st ≡ ok su
      → WellKinded st
      → WellKinded su
  downgrade-WellKinded h st su p w =
      subst WellKinded (sym (downgrade-inverse h st su p))
        (set_scope-WellKinded h (record (st.scopes h) { weak_ref = true }) st (w h) w)

  push-WellKinded :
      (st : Store (Value F)) (f : Frame)
      → WellKinded st
      → WellKinded (interpreter_push_scope st f).0
  unfolding interpreter_push_scope snuk_scope_create
  push-WellKinded st f w =
      set_scope-WellKinded st.next (record { vars = []; parent = some f.current; weak_ref = false })
        st tt w

  -- Well-kinded bindings stay well-kinded.
  abbrev pub Preserves : SnukInterpreter F → SnukInterpreter F → Type 0
  Preserves s t = WellKinded s.store → WellKinded t.store

  error-store : (msg : String) (s : SnukInterpreter F) → Preserves s (raise_error msg s)
  unfolding raise_error
  error-store msg s w = kept s.panic_mode
    where
      kept :
          (b : Bool)
          → WellKinded (if b then s else record s { panic_mode = true; err_msg = msg }).store
      kept true = w
      kept false = w

  enter-Preserves : (h closure : ℕ) (s : SnukInterpreter F) → Preserves s (entered h closure s)
  unfolding entered snuk_scope_set_parent
  enter-Preserves h closure s w =
      set_scope-WellKinded h (record (s.store.scopes h) { parent = some closure; weak_ref = false })
        s.store (w h) w

  unfoldable types : Discipline F
  unfolding pushed
  types = record {
    Rel = Preserves;
    Weak = Preserves;
    rel_refl = λ s w. w;
    rel_trans = λ p q w. q (p w);
    weaken = λ p. p;
    weak_trans = λ p q w. q (p w);
    pushes = λ s. push-WellKinded s.store s.frame;
    moves = λ s f w. w;
    panics = λ {s} {t} msg p w. error-store msg t (p w);
    signals = λ s g w. w;
    prints = λ s o w. w;
    assigns = λ s rounds h name e v p q. assign-WellKinded rounds h s.frame name e v s.store p q;
    adds = λ s rounds h name t v p. add-WellKinded rounds h s.frame name t v s.store p;
    downgrades = λ s h st p. downgrade-WellKinded h s.store st p;
    scopes = λ s t f p q w. p (push-WellKinded s.store s.frame w);
    calls = λ s t u i closure f p q r w. r (
        enter-Preserves t.frame.current closure (with_frame f t)
          (p (push-WellKinded s.store (record (s.frame) { instance_scope = i }) w)));
    extends = λ s t h p. p;
  }

-- The functions in C keep the bindings well-kinded.
abbrev pub NativesPreserve : {F : Type 0} → (ℕ → I F (Value F)) → Type 0
NativesPreserve others = (n : ℕ) (s : SnukInterpreter _) → Post (Preserves s) (others n s)

module _ {F : Type 0} where
  preserved :
      {A : Type 0} (s t : SnukInterpreter F) (a : A) (r : Run F A)
      → Post (Preserves s) r
      → r ≡ done a t
      → Preserves s t
  preserved s t a r h e = subst (Post (Preserves s)) e h

  -- Where every number, bool, string, function and interface that is the value of a binding is of the type
  -- that the binding was declared with, and types and instances stand only in bindings declared any, by a
  -- name, with an interface, or, for types, with type, the same holds behind the execution of an item, also
  -- when it ends with an error, where the other functions in C that it may call do so too.
  pub exec_item-WellKinded :
      (fl : Floats F) (others : ℕ → I F (Value F))
      → NativesPreserve others
      → (rounds : ℕ) (i : SnukItem F) (weak : Bool) (s t : SnukInterpreter F) (v : Value F)
      → (calls_of fl others rounds).exec_item i weak s ≡ done v t
      → WellKinded s.store
      → WellKinded t.store
  unfolding types
  exec_item-WellKinded fl others kept rounds i weak s t v run =
      preserved s t v _ ((calls_of-kept types fl others kept rounds).exec i weak s) run
