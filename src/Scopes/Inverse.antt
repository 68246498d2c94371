-- ===== src/Scopes/Inverse.antt =====
-- include/snuk/interpreter/snuk_scope.h and interpreter_helper.h: what the operations on scopes that may
-- fail give where they do not.
use snuk.Prelude.{
  ℕ, Bool, true, false, Option, none, some, ok, trap, ◌≡◌, refl, sym, ◌==◌, if◌then◌else◌,
  should_not_reach, null_counter, weak_parent,
}
use snuk.Scopes.{Store, Frame, set_scope, snuk_scope_downgrade_parent, interpreter_pop_scope}

pub ok_inj : {A : Type 0} {a b : A} → ok a ≡ ok b → a ≡ b
ok_inj p = cc

pub some_inj : {A : Type 0} {a b : A} → some a ≡ some b → a ≡ b
some_inj p = cc

module _ {V : Type 0} where
  -- What leaving a scope gives.
  pub pop-inverse :
      (st : Store V) (f g : Frame)
      → interpreter_pop_scope st f ≡ ok g
      → (h : ℕ) × ((st.scopes f.current).parent ≡ some h) × (g ≡ record f { current = h })
  unfolding interpreter_pop_scope
  pop-inverse st f g p = left (f.global == f.current) (st.scopes f.current).parent p
    where
      left :
          (b : Bool) (o : Option ℕ)
          → (if b
              then trap should_not_reach
              else elim o [ none ↦ trap null_counter | some h ↦ ok (record f { current = h }) ])
            ≡ ok g
          → (h : ℕ) × (o ≡ some h) × (g ≡ record f { current = h })
      left true o r = cc
      left false none r = cc
      left false (some h) r = (h, refl, sym (ok_inj r))

  -- A reference to the parent that does not count any more.
  pub downgrade-inverse :
      (h : ℕ) (st su : Store V)
      → snuk_scope_downgrade_parent h st ≡ ok su
      → su ≡ set_scope h (record (st.scopes h) { weak_ref = true }) st
  unfolding snuk_scope_downgrade_parent
  downgrade-inverse h st su p = checked (st.scopes h).weak_ref (st.scopes h).parent p
    where
      checked :
          (b : Bool) (o : Option ℕ)
          → (if b then trap weak_parent else elim o [
            | none ↦ trap null_counter
            | some q ↦ ok (set_scope h (record (st.scopes h) { weak_ref = true }) st)
          ])
            ≡ ok su
          → su ≡ set_scope h (record (st.scopes h) { weak_ref = true }) st
      checked true o r = absurd (cc)
      checked false none r = absurd (cc)
      checked false (some q) r = sym (ok_inj r)
