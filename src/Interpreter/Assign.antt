-- ===== src/Interpreter/Assign.antt =====
-- src/interpreter/interpreter.c: what a name stands for behind an assignment.
use mathlib.Core.Path.{subst}
use snuk.Prelude.{
  ℕ, zero, suc, Bool, true, false, List, [], ◌∷◌, Option, none, some, ok, trap, ◌≡◌, refl, sym, ap,
  ◌∙◌, inl, inr, ◌==◌, ==_iff, Bool-cases, if◌then◌else◌,
}
use snuk.Text.{StringView, equal}
use snuk.Scopes.{
  SnukEnv, Store, Frame, lookup_in, snuk_scope_lookup, snuk_env_assign_value,
  snuk_scope_lookup_recursive, interpreter_lookup,
}
use snuk.Scopes.Inverse.{some_inj}
use snuk.Scopes.Shadow.{same_scope}
use snuk.Interpreter.State.{Value, SnukInterpreter, done, bind, read, pure}
use snuk.Interpreter.Env.{
  Place, Answer, find, find_recursive, find_from, seek, assign_in, assign_at, value_is_of_type,
  located, lookup_place, get_env, set_env, assign_place, assign_checked, assign_if, value_at,
}

module _ {F : Type 0} (name : StringView) (v : Value F) where
  -- The binding that was found, with the value.
  assigned : Option (SnukEnv (Value F)) → Option (SnukEnv (Value F))
  assigned none = none
  assigned (some e) = some (record e { value = v })

  lookup-assign :
      (es : List (SnukEnv (Value F)))
      → lookup_in (assign_in es name v) name ≡ assigned (lookup_in es name)
  unfolding lookup_in assign_in snuk_env_assign_value assigned
  lookup-assign [] = refl
  lookup-assign (e ∷ es) = first (equal e.name name) refl (lookup-assign es)
    where
      first :
          (b : Bool)
          → equal e.name name ≡ b
          → lookup_in (assign_in es name v) name ≡ assigned (lookup_in es name)
          → lookup_in (if b then record e { value = v } ∷ es else (e ∷ assign_in es name v)) name
            ≡ assigned (if b then some e else lookup_in es name)
      first true p ih = rw p refl
      first false p ih = rw p ih

  module _ (st : Store (Value F)) (h : ℕ) where
    scope_lookup-hit :
        (e : SnukEnv (Value F))
        → snuk_scope_lookup st h name ≡ some e
        → snuk_scope_lookup (assign_at h name v st) h name ≡ some (record e { value = v })
    unfolding snuk_scope_lookup assign_at assigned
    scope_lookup-hit e p =
        ap
          (λ b.
            lookup_in
              (if b
                then record (st.scopes h) { vars = assign_in (st.scopes h).vars name v }
                else st.scopes h).vars
              name)
          (same_scope h)
        ∙ lookup-assign (st.scopes h).vars
        ∙ ap assigned p

    scope_lookup-miss :
        (k : ℕ)
        → snuk_scope_lookup st k name ≡ none
        → snuk_scope_lookup (assign_at h name v st) k name ≡ none
    unfolding snuk_scope_lookup assign_at assigned
    scope_lookup-miss k p = elim (Bool-cases (k == h)) [
      | inl e ↦ rw e (
          lookup-assign (st.scopes h).vars
          ∙ ap assigned
              (subst (λ j. lookup_in (st.scopes j).vars name ≡ none) ((==_iff k h).0 e) p))
      | inr e ↦ rw e p
    ]

    parent_stays : (k : ℕ) → ((assign_at h name v st).scopes k).parent ≡ (st.scopes k).parent
    unfolding assign_at
    parent_stays k = elim (Bool-cases (k == h)) [
      | inl e ↦ rw e (ap (λ j. (st.scopes j).parent) (sym ((==_iff k h).0 e)))
      | inr e ↦ rw e refl
    ]

    module _ (e : SnukEnv (Value F)) where
      -- The binding is found first, and so is the assigned one.
      abbrev Follows : Option (Option (Place F)) → Option (Option (Place F)) → Type 0
      Follows o o' = o ≡ some (some (h, e)) → o' ≡ some (some (h, record e { value = v }))

      seek-Follows :
          (k : ℕ) (o o' : Option (Option (Place F)))
          → Follows o o'
          → Follows
              (seek k (snuk_scope_lookup st k name) o)
              (seek k (snuk_scope_lookup (assign_at h name v st) k name) o')
      seek-Follows k o o' f = found (snuk_scope_lookup st k name) refl
        where
          found :
              (x : Option (SnukEnv (Value F)))
              → snuk_scope_lookup st k name ≡ x
              → Follows (seek k x o) (seek k (snuk_scope_lookup (assign_at h name v st) k name) o')
          found none p q = rw (scope_lookup-miss k p) (f q)
          found (some y) p q =
              let place = some_inj (some_inj q) in
              let same_h = ap (λ (z : Place F). z.0) place in
              let same_e = ap (λ (z : Place F). z.1) place in
              let hit =
                scope_lookup-hit e
                  (subst (λ j. snuk_scope_lookup st j name ≡ some e) same_h (p ∙ ap some same_e)) in
              ap (λ j. seek j (snuk_scope_lookup (assign_at h name v st) j name) o') same_h
              ∙ ap (λ x. seek h x o') hit

      find_recursive-Follows :
          (rounds : ℕ) (k : Option ℕ)
          → Follows
              (find_recursive rounds st k name)
              (find_recursive rounds (assign_at h name v st) k name)
      unfolding find_recursive
      find_recursive-Follows zero k = λ q. absurd (cc)
      find_recursive-Follows (suc rounds) none = λ q. absurd (cc)
      find_recursive-Follows (suc rounds) (some k) =
          seek-Follows k (find_recursive rounds st (st.scopes k).parent name)
            (find_recursive rounds (assign_at h name v st) ((assign_at h name v st).scopes k).parent
              name)
            (subst
              (λ o.
                Follows (find_recursive rounds st (st.scopes k).parent name)
                  (find_recursive rounds (assign_at h name v st) o name))
              (sym (parent_stays k)) (find_recursive-Follows rounds (st.scopes k).parent))

      find-Follows :
          (rounds current : ℕ) (i : Option ℕ)
          → Follows
              (find_from rounds st current i name)
              (find_from rounds (assign_at h name v st) current i name)
      unfolding find_from
      find-Follows rounds current none = find_recursive-Follows rounds (some current)
      find-Follows rounds current (some i) =
          seek-Follows current _ _
            (seek-Follows i _ _ (find_recursive-Follows rounds (some current)))

done_inj : {F A : Type 0} {a b : A} {s t : SnukInterpreter F} → done a s ≡ done b t → s ≡ t
done_inj p = cc

module _ {F : Type 0} (name : StringView) (v : Value F) (s t : SnukInterpreter F) where
  -- The value is read where it was written.
  reads :
      (rounds h : ℕ) (e : SnukEnv (Value F))
      → find rounds s.store s.frame name ≡ some (some (h, e))
      → record s { store = assign_at h name v s.store } ≡ t
      → get_env rounds name t ≡ done v t
  unfolding get_env lookup_place find
  reads rounds h e p q =
      subst (λ u. get_env rounds name u ≡ done v u) q
        (ap
          (λ o.
            bind (read (located o) (record s { store = assign_at h name v s.store }))
              (λ x. pure (value_at x)))
          (find-Follows name v s.store h e rounds s.frame.current s.frame.instance_scope p))

  checked_then :
      (rounds h : ℕ) (e : SnukEnv (Value F)) (o : Answer)
      → find rounds s.store s.frame name ≡ some (some (h, e))
      → bind (read o s) (assign_if h name v) ≡ done true t
      → get_env rounds name t ≡ done v t
  unfolding assign_if
  checked_then rounds h e none p q = absurd (cc)
  checked_then rounds h e (some (trap x)) p q = absurd (cc)
  checked_then rounds h e (some (ok false)) p q = absurd (cc)
  checked_then rounds h e (some (ok true)) p q = reads rounds h e p (done_inj q)

  found_then :
      (rounds : ℕ) (o : Option (Option (Place F)))
      → find rounds s.store s.frame name ≡ o
      → bind (read (located o) s) (assign_place rounds name v) ≡ done true t
      → get_env rounds name t ≡ done v t
  unfolding assign_place assign_checked
  found_then rounds none p q = absurd (cc)
  found_then rounds (some none) p q = absurd (cc)
  found_then rounds (some (some (h, e))) p q =
      checked_then rounds h e (value_is_of_type rounds s.store s.frame v e.type) p q

  -- Behind an assignment that succeeds, the name has the value.
  pub get_env-set_env :
      (rounds : ℕ) → set_env rounds name v s ≡ done true t → get_env rounds name t ≡ done v t
  unfolding set_env lookup_place
  get_env-set_env rounds run = found_then rounds (find rounds s.store s.frame name) refl run

module _ {F : Type 0} where
  -- The binding without its scope.
  abbrev pub forget : Option (Option (Place F)) → Option (Option (SnukEnv (Value F)))
  forget none = none
  forget (some none) = some none
  forget (some (some (h, e))) = some (some e)

  forget-seek :
      (k : ℕ) (o : Option (SnukEnv (Value F))) (other : Option (Option (Place F)))
      (x : Option (Option (SnukEnv (Value F))))
      → forget other ≡ x
      → forget (seek k o other) ≡ elim o [ some e ↦ some (some e) | none ↦ x ]
  forget-seek k none other x p = p
  forget-seek k (some e) other x p = refl

  find_recursive-lookup :
      (rounds : ℕ) (st : Store (Value F)) (h : Option ℕ) (name : StringView)
      → forget (find_recursive rounds st h name) ≡ snuk_scope_lookup_recursive rounds st h name
  unfolding find_recursive snuk_scope_lookup_recursive
  find_recursive-lookup zero st h name = refl
  find_recursive-lookup (suc rounds) st none name = refl
  find_recursive-lookup (suc rounds) st (some h) name =
      forget-seek h (snuk_scope_lookup st h name) _ _
        (find_recursive-lookup rounds st (st.scopes h).parent name)

  -- The search that also gives the scope finds the binding that `interpreter_lookup` finds, and needs more
  -- rounds exactly where it does.
  pub find-lookup :
      (rounds : ℕ) (st : Store (Value F)) (f : Frame) (name : StringView)
      → forget (find rounds st f name) ≡ interpreter_lookup rounds st f name
  unfolding find find_from interpreter_lookup
  find-lookup rounds st f name = from (f.instance_scope) refl
    where
      from :
          (i : Option ℕ)
          → f.instance_scope ≡ i
          → forget (find_from rounds st f.current i name) ≡ elim i [
            | none ↦ snuk_scope_lookup_recursive rounds st (some f.current) name
            | some j ↦ elim (snuk_scope_lookup st f.current name) [
              | some e ↦ some (some e)
              | none ↦ elim (snuk_scope_lookup st j name) [
                | some e ↦ some (some e)
                | none ↦ snuk_scope_lookup_recursive rounds st (some f.current) name
              ]
            ]
          ]
      from none p = find_recursive-lookup rounds st (some f.current) name
      from (some j) p = forget-seek f.current (snuk_scope_lookup st f.current name) _ _ (
          forget-seek j (snuk_scope_lookup st j name) _ _
            (find_recursive-lookup rounds st (some f.current) name))
