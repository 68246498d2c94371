-- ===== src/Interpreter/Frames.antt =====
-- src/interpreter/interpreter.c: the scope that is current, the global one and the instance's, in front
-- of an evaluation and behind it.
use Prim.Native.String.{String}
use snuk.Prelude.{
  ℕ, ◌≤◌, ◌<◌, Bool, true, false, [], ◌∷◌, ◌++◌, Option, some, ok, ◌≡◌, refl, sym, ap, ◌∙◌, ◌⊎◌,
  inl, inr, ◌==◌, ==_iff, Bool-cases, arith, if◌then◌else◌, Option-cases,
}
use mathlib.Core.Path.{subst}
use snuk.Text.{StringView}
use snuk.Parser.Syntax.{SnukExpr, SnukItem}
use snuk.Values.{Floats}
use snuk.Scopes.{
  SnukEnv, SnukScope, Store, Frame, set_scope, snuk_scope_lookup, snuk_scope_add_env,
  snuk_env_create, snuk_scope_downgrade_parent, snuk_scope_create, snuk_scope_set_parent,
  interpreter_push_scope, interpreter_pop_scope,
}
use snuk.Scopes.Inverse.{pop-inverse, downgrade-inverse, some_inj}
use snuk.Scopes.Shadow.{same_scope, other_scope}
use snuk.Interpreter.State.{
  Value, SnukInterpreter, Run, done, I, pushed, raise_error, with_frame, with_current,
  with_instance,
}
use snuk.Interpreter.Env.{assign_at}
use snuk.Interpreter.Functions.{entered}
use snuk.Interpreter.Whole.{calls_of}
use snuk.Interpreter.Laws.{Discipline, Post}
use snuk.Interpreter.Kept.Whole.{calls_of-kept}

module _ {V : Type 0} where
  -- The scopes that were there keep their parents.
  abbrev pub Grows : Store V → Store V → Type 0
  Grows st st' =
      (st.next ≤ st'.next) × ((h : ℕ) → h < st.next → (st'.scopes h).parent ≡ (st.scopes h).parent)

  Grows-refl : (st : Store V) → Grows st st
  Grows-refl st = (omega arith, λ h lt. refl)

  Grows-trans : (st su sv : Store V) → Grows st su → Grows su sv → Grows st sv
  Grows-trans st su sv (le, p) (le', q) =
      (omega (arith, le, le'), λ h lt. q h (omega (arith, lt, le)) ∙ p h lt)

  set_scope-parent :
      (h : ℕ) (s : SnukScope V) (st : Store V) (i : ℕ)
      → s.parent ≡ (st.scopes h).parent
      → ((set_scope h s st).scopes i).parent ≡ (st.scopes i).parent
  set_scope-parent h s st i p = elim (Bool-cases (i == h)) [
    | inl e ↦ rw e (p ∙ ap (λ k. (st.scopes k).parent) (sym ((==_iff i h).0 e)))
    | inr e ↦ rw e refl
  ]

  set_scope-Grows :
      (h : ℕ) (s : SnukScope V) (st : Store V)
      → s.parent ≡ (st.scopes h).parent
      → Grows st (set_scope h s st)
  set_scope-Grows h s st p = (omega arith, λ i lt. set_scope-parent h s st i p)

  -- A scope that was not there before may change.
  set_new-Grows :
      (st su : Store V) (h : ℕ) (s : SnukScope V)
      → st.next ≤ h
      → Grows st su
      → Grows st (set_scope h s su)
  set_new-Grows st su h s new (le, p) = (
    le,
    λ i lt.
        ap (λ b. (if b then s else su.scopes i).parent) (other_scope h i (omega (arith, lt, new)))
        ∙ p i lt,
  )

  add_env-Grows : (h : ℕ) (e : SnukEnv V) (st : Store V) → Grows st (snuk_scope_add_env h e st).0
  unfolding snuk_scope_add_env
  add_env-Grows h e st = elim (Option-cases (snuk_scope_lookup st h e.name)) [
    | inl free ↦
        rw (free, snuk_scope_add_env)
          (set_scope-Grows h (record (st.scopes h) { vars = (st.scopes h).vars ++ (e ∷ []) }) st
            refl)
    | inr (found, p) ↦ rw (p, snuk_scope_add_env) (Grows-refl st)
  ]

  downgrade-Grows :
      (h : ℕ) (st su : Store V) → snuk_scope_downgrade_parent h st ≡ ok su → Grows st su
  downgrade-Grows h st su p =
      subst (Grows st) (sym (downgrade-inverse h st su p))
        (set_scope-Grows h (record (st.scopes h) { weak_ref = true }) st refl)

  pushed-parent :
      (st : Store V) (f : Frame)
      → ((interpreter_push_scope st f).0.scopes st.next).parent ≡ some f.current
  unfolding interpreter_push_scope snuk_scope_create
  pushed-parent st f =
      ap
        (λ b.
          (if b
            then record { vars = []; parent = some f.current; weak_ref = false }
            else st.scopes st.next).parent)
        (same_scope st.next)

  push-Grows : (st : Store V) (f : Frame) → Grows st (interpreter_push_scope st f).0
  unfolding interpreter_push_scope snuk_scope_create
  push-Grows st f = (
    omega arith,
    λ h lt.
        ap
          (λ b.
            (if b
              then record { vars = []; parent = some f.current; weak_ref = false }
              else st.scopes h).parent)
          (other_scope st.next h lt),
  )

module _ {F : Type 0} where
  -- An error is pending, or the references are the same and the scopes keep their parents.
  abbrev pub Restores : SnukInterpreter F → SnukInterpreter F → Type 0
  Restores s t =
      (t.panic_mode ≡ true) ⊎ ((s.panic_mode ≡ false) × (t.frame ≡ s.frame) × Grows s.store t.store)

  assign-Grows :
      (h : ℕ) (name : StringView) (v : Value F) (st : Store (Value F))
      → Grows st (assign_at h name v st)
  unfolding assign_at
  assign-Grows h name v st = set_scope-Grows h _ st refl

  -- A change of the store only.
  same_frame :
      (s : SnukInterpreter F) (st : Store (Value F))
      → Grows s.store st
      → Restores s (record s { store = st })
  same_frame s st g = elim (Bool-cases s.panic_mode) [ inl e ↦ inl e | inr e ↦ inr (e, refl, g) ]

  Restores-refl : (s : SnukInterpreter F) → Restores s s
  Restores-refl s = same_frame s s.store (Grows-refl s.store)

  Restores-trans : (s t u : SnukInterpreter F) → Restores s t → Restores t u → Restores s u
  Restores-trans s t u p (inl q) = inl q
  Restores-trans s t u (inl p) (inr (q, e, g)) = absurd (cc)
  Restores-trans s t u (inr (p, e, g)) (inr (q, e', g')) =
      inr (p, e' ∙ e, Grows-trans s.store t.store u.store g g')

  error_panics : (msg : String) (s : SnukInterpreter F) → (raise_error msg s).panic_mode ≡ true
  unfolding raise_error
  error_panics msg s = elim (Bool-cases s.panic_mode) [ inl e ↦ rw e refl | inr e ↦ rw e refl ]

  -- Entering a scope, an evaluation in it, and leaving it.
  left_scope :
      (s t : SnukInterpreter F) (f : Frame)
      → Restores (pushed s) t
      → interpreter_pop_scope t.store t.frame ≡ ok f
      → Restores s (with_frame f t)
  unfolding pushed interpreter_push_scope snuk_scope_create
  left_scope s t f (inl p) q = inl p
  left_scope s t f (inr (p, e, g)) q =
      let (h, ph, fh) = pop-inverse t.store t.frame f q in
      let same : (t.store.scopes t.frame.current).parent ≡ some s.frame.current =
        ap (λ (x : Frame). (t.store.scopes x.current).parent) e
        ∙ g.1 s.store.next (omega arith)
        ∙ pushed-parent s.store s.frame in
      inr (
        p,
        fh
            ∙ ap (λ (x : Frame). record x { current = h }) e
            ∙ ap (λ (k : ℕ). record (s.frame) { current = k }) (some_inj (sym ph ∙ same)),
        Grows-trans s.store (pushed s).store t.store (push-Grows s.store s.frame) g,
      )

  -- A call: its parameters are bound in a scope of its own, which then gets the closure as its parent.
  left_call :
      (s t u : SnukInterpreter F) (i : Option ℕ) (closure : ℕ) (f : Frame)
      → Restores (pushed (with_instance i s)) t
      → interpreter_pop_scope t.store t.frame ≡ ok f
      → Restores (entered t.frame.current closure (with_frame f t)) u
      → Restores s (with_instance s.frame.instance_scope (with_current f.current u))
  unfolding entered snuk_scope_set_parent pushed interpreter_push_scope snuk_scope_create
  left_call s t u i closure f p q (inl r) = inl r
  left_call s t u i closure f (inl p) q (inr (r, e, g)) = absurd (cc)
  left_call s t u i closure f (inr (p, e, g)) q (inr (r, e', g')) =
      let (h, ph, fh) = pop-inverse t.store t.frame f q in
      let grown = Grows-trans s.store (pushed s).store t.store (push-Grows s.store s.frame) g in
      let same : (t.store.scopes t.frame.current).parent ≡ some s.frame.current =
        ap (λ (x : Frame). (t.store.scopes x.current).parent) e
        ∙ g.1 s.store.next (omega arith)
        ∙ pushed-parent s.store s.frame in
      let new : t.frame.current ≡ s.store.next = ap (λ (x : Frame). x.current) e in
      inr (
        p,
        ap
              (λ (x : Frame). record x {
                current = f.current;
                instance_scope = s.frame.instance_scope;
              })
              e'
            ∙ ap (λ (x : Frame). record x { instance_scope = s.frame.instance_scope }) fh
            ∙ ap (λ (x : Frame). record x { current = h; instance_scope = s.frame.instance_scope })
                e
            ∙ ap (λ (k : ℕ). record (s.frame) { current = k }) (some_inj (sym ph ∙ same)),
        Grows-trans s.store (entered t.frame.current closure (with_frame f t)).store u.store
            (set_new-Grows s.store t.store t.frame.current
              (record (t.store.scopes t.frame.current) { parent = some closure; weak_ref = false })
              (omega (arith, new)) grown)
            g',
      )

  left_type :
      (s t : SnukInterpreter F) (h : ℕ)
      → Restores (with_current h s) t
      → Restores s (with_current s.frame.current t)
  left_type s t h (inl p) = inl p
  left_type s t h (inr (p, e, g)) =
      inr (p, ap (λ (x : Frame). record x { current = s.frame.current }) e, g)

  unchanged :
      (s t : SnukInterpreter F)
      → t.panic_mode ≡ s.panic_mode
      → t.frame ≡ s.frame
      → t.store ≡ s.store
      → Restores s t
  unchanged s t p e g = elim (Bool-cases s.panic_mode) [
    | inl q ↦ inl (p ∙ q)
    | inr q ↦ inr (q, e, rw g (Grows-refl s.store))
  ]

  -- A run that comes to its end restores the frame.
  unfoldable frames : Discipline F
  frames = record {
    Rel = Restores;
    Weak = λ s t. Unit;
    rel_refl = Restores-refl;
    rel_trans = λ {s} {t} {u}. Restores-trans s t u;
    weaken = λ p. tt;
    weak_trans = λ p q. tt;
    pushes = λ s. tt;
    moves = λ s f. tt;
    panics = λ {s} {t} msg w. inl (error_panics msg t);
    signals = λ s g. unchanged s (record s { signal = g }) refl refl refl;
    prints = λ s o. unchanged s (record s { output = o }) refl refl refl;
    assigns = λ s rounds h name e v p q.
        same_frame s (assign_at h name v s.store) (assign-Grows h name v s.store);
    adds = λ s rounds h name t v p.
        let e = snuk_env_create name t v in
        same_frame s (snuk_scope_add_env h e s.store).0 (add_env-Grows h e s.store);
    downgrades = λ s h st p. same_frame s st (downgrade-Grows h s.store st p);
    scopes = left_scope;
    calls = left_call;
    extends = left_type;
  }

-- The functions in C leave the references as they found them.
abbrev pub NativesRestore : {F : Type 0} → (ℕ → I F (Value F)) → Type 0
NativesRestore others = (n : ℕ) (s : SnukInterpreter _) → Post (Restores s) (others n s)

module _ {F : Type 0} where
  restored :
      {A : Type 0} (s t : SnukInterpreter F) (a : A) (r : Run F A)
      → Post (Restores s) r
      → r ≡ done a t
      → Restores s t
  restored s t a r h e = subst (Post (Restores s)) e h

  calm_case :
      (s t : SnukInterpreter F)
      → Restores s t
      → t.panic_mode ≡ false
      → (s.panic_mode ≡ false) × (t.frame ≡ s.frame) × Grows s.store t.store
  calm_case s t (inl p) calm = absurd (cc)
  calm_case s t (inr r) calm = r

  -- An evaluation of an expression that ends with no error pending began with none, and leaves the
  -- current scope, the global one and that of the instance as they were, and each scope that was there
  -- with its parent, where the other functions in C that it may call do so too.
  pub eval_expr-frame :
      (fl : Floats F) (others : ℕ → I F (Value F))
      → NativesRestore others
      → (rounds : ℕ) (e : SnukExpr F) (weak : Bool) (s t : SnukInterpreter F) (v : Value F)
      → (calls_of fl others rounds).eval_expr e weak s ≡ done v t
      → t.panic_mode ≡ false
      → (s.panic_mode ≡ false) × (t.frame ≡ s.frame) × Grows s.store t.store
  unfolding frames
  eval_expr-frame fl others kept rounds e weak s t v run calm =
      calm_case s t
        (restored s t v _ ((calls_of-kept frames fl others kept rounds).eval e weak s) run) calm

  -- The same of an item.
  pub exec_item-frame :
      (fl : Floats F) (others : ℕ → I F (Value F))
      → NativesRestore others
      → (rounds : ℕ) (i : SnukItem F) (weak : Bool) (s t : SnukInterpreter F) (v : Value F)
      → (calls_of fl others rounds).exec_item i weak s ≡ done v t
      → t.panic_mode ≡ false
      → (s.panic_mode ≡ false) × (t.frame ≡ s.frame) × Grows s.store t.store
  unfolding frames
  exec_item-frame fl others kept rounds i weak s t v run calm =
      calm_case s t
        (restored s t v _ ((calls_of-kept frames fl others kept rounds).exec i weak s) run) calm
