-- ===== src/Interpreter/Kept.antt =====
-- src/interpreter/interpreter.c: the runs of the interpreter keep every relation that its steps respect.
-- Here the operations on bindings and the ends of scopes; the functions of `Control`, `Objects`,
-- `Functions`, `Members` and `Whole` are in the modules of the same names.
pub mod Control
pub mod Objects
pub mod Functions
pub mod Members
pub mod Whole
use snuk.Prelude.{
  ℕ, zero, suc, Bool, true, false, not, Option, none, some, Outcome, ok, trap, ◌≡◌, refl, List,
  if◌then◌else◌, ◌||◌,
}
use snuk.Text.{StringView}
use snuk.Types.{SnukType}
use snuk.Scopes.{
  SnukEnv, Store, Frame, snuk_scope_lookup, snuk_scope_add_env, snuk_env_create,
  snuk_scope_downgrade_parent, interpreter_pop_scope,
}
use snuk.Interpreter.State.{
  Value, SnukSignal, Printed, SnukInterpreter, Run, done, fault, out_of_rounds, I, bind, ◌>>=◌,
  ◌>>◌, pure, ask, lift, read, change, pop_scope, downgrade_if, leave_scope, pushed, with_frame,
}
use snuk.Interpreter.Env.{
  answer, Place, value_is_of_type, of_type, assign_at, find_recursive, find_from, seek, find,
  located, lookup_place, get_env, assign_checked, set_env, add_to, create_in, create_env,
  get_member, inherit_member, member_of_type, own_member, set_in_scopes, assign_if, assign_place,
  add_if, value_at, set_member, scopes_of,
}
use snuk.Interpreter.Laws.{
  Discipline, Post, Holds, Inside, Inside-bind, holds_bind, holds_read, Inside-holds, holds_inside,
}

module _ {F : Type 0} where
  -- The binding that is found is the one that the name has in the scope.
  Found : Store (Value F) → StringView → Option (Option (Place F)) → Type 0
  Found st name (some (some (h, e))) = snuk_scope_lookup st h name ≡ some e
  Found st name _ = Unit

  seek-Found :
      (st : Store (Value F)) (name : StringView) (k : ℕ) (other : Option (Option (Place F)))
      → Found st name other
      → Found st name (seek k (snuk_scope_lookup st k name) other)
  unfolding Found
  seek-Found st name k other r = here (snuk_scope_lookup st k name) refl
    where
      here :
          (o : Option (SnukEnv (Value F)))
          → snuk_scope_lookup st k name ≡ o
          → Found st name (seek k o other)
      here none p = r
      here (some e) p = p

  find_recursive-Found :
      (rounds : ℕ) (st : Store (Value F)) (h : Option ℕ) (name : StringView)
      → Found st name (find_recursive rounds st h name)
  unfolding find_recursive Found
  find_recursive-Found zero st h name = tt
  find_recursive-Found (suc rounds) st none name = tt
  find_recursive-Found (suc rounds) st (some h) name =
      seek-Found st name h _ (find_recursive-Found rounds st (st.scopes h).parent name)

  find_from-Found :
      (rounds : ℕ) (st : Store (Value F)) (current : ℕ) (i : Option ℕ) (name : StringView)
      → Found st name (find_from rounds st current i name)
  unfolding find_from
  find_from-Found rounds st current none name = find_recursive-Found rounds st (some current) name
  find_from-Found rounds st current (some i) name =
      seek-Found st name current _
        (seek-Found st name i _ (find_recursive-Found rounds st (some current) name))

  find-Found :
      (rounds : ℕ) (st : Store (Value F)) (f : Frame) (name : StringView)
      → Found st name (find rounds st f name)
  unfolding find
  find-Found rounds st f name = find_from-Found rounds st f.current f.instance_scope name

module _ {F : Type 0} (d : Discipline F) where
  -- The rest behind a test of a value's type.
  tested :
      {A : Type 0} (Q : SnukInterpreter F → Type 0) (rounds : ℕ) (v : Value F) (t : SnukType)
      (k : Bool → I F A) (s : SnukInterpreter F)
      → (value_is_of_type rounds s.store s.frame v t ≡ answer true → Post Q (k true s))
      → Post Q (k false s)
      → Post Q ((of_type rounds v t >>= k) s)
  tested Q rounds v t k s yes_case no_case =
      elim (value_is_of_type rounds s.store s.frame v t)
          as (λ o. value_is_of_type rounds s.store s.frame v t ≡ o → Post Q (bind (read o s) k)) [
            | none ↦ λ p. tt
            | some (trap e) ↦ λ p. tt
            | some (ok true) ↦ yes_case
            | some (ok false) ↦ λ p. no_case
          ]
        refl

  assign_checked-kept :
      (rounds h : ℕ) (name : StringView) (e : SnukEnv (Value F)) (v : Value F)
      (s : SnukInterpreter F)
      → snuk_scope_lookup s.store h name ≡ some e
      → Post (d.Rel s) (assign_checked rounds h name e v s)
  unfolding assign_checked assign_if
  assign_checked-kept rounds h name e v s p =
      tested (d.Rel s) rounds v e.type (assign_if h name v) s
        (λ q. d.assigns s rounds h name e v p q) (d.rel_refl s)

  pub set_env-kept :
      (rounds : ℕ) (name : StringView) (v : Value F) → Holds d (set_env rounds name v)
  unfolding set_env lookup_place Found assign_place
  set_env-kept rounds name v s =
      assign_found (find rounds s.store s.frame name) (find-Found rounds s.store s.frame name)
    where
      assign_found :
          (o : Option (Option (Place F)))
          → Found s.store name o
          → Post (d.Rel s) (bind (read (located o) s) (assign_place rounds name v))
      assign_found none r = tt
      assign_found (some none) r = d.rel_refl s
      assign_found (some (some (h, e))) r = assign_checked-kept rounds h name e v s r

  pub get_env-kept : (rounds : ℕ) (name : StringView) → Holds d (get_env rounds name)
  unfolding get_env lookup_place
  get_env-kept rounds name =
      holds_bind d (lookup_place rounds name) (λ p. pure (value_at p))
        (holds_read d (λ s. located (find rounds s.store s.frame name))) (λ p. d.rel_refl)

  pub create_in-kept :
      (rounds h : ℕ) (name : StringView) (t : SnukType) (v : Value F)
      → Holds d (create_in rounds h name t v)
  unfolding create_in add_to add_if
  create_in-kept rounds h name t v s =
      tested (d.Rel s) rounds v t (add_if h (snuk_env_create name t v)) s
        (λ q. d.adds s rounds h name t v q) (d.rel_refl s)

  pub create_env-kept :
      (rounds : ℕ) (name : StringView) (t : SnukType) (v : Value F) (b : Bool)
      → Holds d (create_env rounds name t v b)
  unfolding create_env
  create_env-kept rounds name t v b s = create_in-kept rounds s.frame.current name t v s

  pub get_member-kept : (v : Value F) (field : StringView) → Holds d (get_member v field)
  unfolding get_member
  get_member-kept v field = d.rel_refl

  inherit_member-kept :
      (rounds closure : ℕ) (v : Value F) (o : Option (SnukEnv (Value F)))
      → Holds d (inherit_member rounds closure v o)
  unfolding inherit_member
  inherit_member-kept rounds closure v none = d.rel_refl
  inherit_member-kept rounds closure v (some e) = create_in-kept rounds closure e.name e.type v

  member_of_type-kept :
      (rounds closure : ℕ) (h : Option ℕ) (field : StringView) (v : Value F)
      → Holds d (member_of_type rounds closure h field v)
  unfolding member_of_type
  member_of_type-kept rounds closure none field v s = d.rel_refl s
  member_of_type-kept rounds closure (some h) field v s =
      inherit_member-kept rounds closure v (snuk_scope_lookup s.store h field) s

  own_member-kept :
      (rounds closure : ℕ) (h : Option ℕ) (field : StringView) (v : Value F)
      (o : Option (SnukEnv (Value F))) (s : SnukInterpreter F)
      → snuk_scope_lookup s.store closure field ≡ o
      → Post (d.Rel s) (own_member rounds closure h field v o s)
  unfolding own_member
  own_member-kept rounds closure h field v (some e) s p =
      assign_checked-kept rounds closure field e v s p
  own_member-kept rounds closure h field v none s p = member_of_type-kept rounds closure h field v s

  pub set_member-kept :
      (rounds : ℕ) (inst : Value F) (field : StringView) (v : Value F)
      → Holds d (set_member rounds inst field v)
  unfolding set_member set_in_scopes
  set_member-kept rounds inst field v = in_scopes (scopes_of inst)
    where
      in_scopes : (o : Option (ℕ × Option ℕ)) → Holds d (set_in_scopes rounds o field v)
      in_scopes none s = d.rel_refl s
      in_scopes (some (closure, h)) s =
          own_member-kept rounds closure h field v (snuk_scope_lookup s.store closure field) s refl

  downgrade_if-kept : (b : Bool) (h : ℕ) → Holds d (downgrade_if b h)
  unfolding downgrade_if
  downgrade_if-kept false h s = d.rel_refl s
  downgrade_if-kept true h s =
      elim (snuk_scope_downgrade_parent h s.store)
          as (λ o.
            snuk_scope_downgrade_parent h s.store ≡ o
            → Post (d.Rel s)
                (elim o [ ok st ↦ done tt (record s { store = st }) | trap e ↦ fault e ])) [
                  | ok st ↦ d.downgrades s h st
                  | trap e ↦ λ p. tt
                ]
        refl

  -- The end of a region that began with a scope of its own.
  pub pop-kept :
      {A : Type 0} (s : SnukInterpreter F) (m : Unit {0} → I F A)
      → Holds d (m tt)
      → Inside d s (pushed s) (pop_scope >>= m)
  unfolding pop_scope
  pop-kept s m h t r =
      elim (interpreter_pop_scope t.store t.frame)
          as (λ o.
            interpreter_pop_scope t.store t.frame ≡ o
            → Post (d.Rel s)
                (bind (elim o [ ok f ↦ done tt (with_frame f t) | trap e ↦ fault e ]) m)) [
                  | ok f ↦ λ p. Inside-holds d s (m tt) h (with_frame f t) (d.scopes s t f r p)
                  | trap e ↦ λ p. tt
                ]
        refl

  pub leave_scope-kept :
      (s : SnukInterpreter F) (weak : Bool) → Inside d s (pushed s) (leave_scope weak)
  unfolding leave_scope
  leave_scope-kept s weak t r =
      pop-kept s (λ _. downgrade_if weak t.frame.current) (downgrade_if-kept weak t.frame.current) t
        r
