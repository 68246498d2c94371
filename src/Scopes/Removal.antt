-- ===== src/Scopes/Removal.antt =====
-- include/snuk/interpreter/snuk_scope.h: taking a binding out again.
use snuk.Prelude.{
  ℕ, ◌≤◌, Bool, true, false, List, [], ◌∷◌, ◌++◌, length, none, some, ◌≡◌, refl, ap, ◌∙◌, arith,
  ◌==◌, ==_iff, Bool-cases, inl, inr, if◌then◌else◌,
}
use snuk.Text.{StringView, equal}
use snuk.Text.Equal.{equal_iff}
use snuk.Scopes.{
  SnukEnv, SnukScope, Store, lookup_in, snuk_scope_lookup, snuk_scope_add_env, remove_from,
  snuk_scope_remove_env, set_vars, set_scope,
}
use snuk.Scopes.Shadow.{add_env-free, set_scope-other, same_scope}

same_name : (v : StringView) → v.len ≤ length v.str → equal v v ≡ true
same_name v fits = (equal_iff v v fits fits).1 refl

module _ {V : Type 0} where
  remove_from-append :
      (es : List (SnukEnv V)) (e : SnukEnv V)
      → lookup_in es e.name ≡ none
      → equal e.name e.name ≡ true
      → remove_from (es ++ (e ∷ [])) e.name ≡ es
  unfolding remove_from lookup_in
  remove_from-append [] e free same = rw same refl
  remove_from-append (x ∷ es) e free same =
      step (equal x.name e.name) free (remove_from-append es e)
    where
      step :
          (b : Bool)
          → (if b then some x else lookup_in es e.name) ≡ none
          → (lookup_in es e.name ≡ none
              → equal e.name e.name ≡ true
              → remove_from (es ++ (e ∷ [])) e.name ≡ es)
          → (if b then es ++ (e ∷ []) else (x ∷ remove_from (es ++ (e ∷ [])) e.name)) ≡ x ∷ es
      step true h ih = absurd (ground arith)
      step false h ih = ap (◌∷◌ x) (ih h same)

  set_scope-same : (st : Store V) (h : ℕ) (s : SnukScope V) → (set_scope h s st).scopes h ≡ s
  set_scope-same st h s = rw (same_scope h) refl

  removed_here :
      (st : Store V) (h : ℕ) (e : SnukEnv V)
      → remove_from ((st.scopes h).vars ++ (e ∷ [])) e.name ≡ (st.scopes h).vars
      → (snuk_scope_remove_env h e.name (set_vars h ((st.scopes h).vars ++ (e ∷ [])) st)).scopes h
        ≡ st.scopes h
  unfolding snuk_scope_remove_env
  removed_here st h e removed =
      let s = record (st.scopes h) { vars = (st.scopes h).vars ++ (e ∷ []) } in
      set_scope-same (set_scope h s st) h _
      ∙ ap (λ (s : SnukScope V). record s { vars = remove_from s.vars e.name })
          (set_scope-same st h s)
      ∙ ap (λ es. record (st.scopes h) { vars = es }) removed

  -- A binding that is added to a scope where its name is free, and taken out again by its name,
  -- leaves every scope as it was, where the name ends inside its string.
  pub remove-add :
      (st : Store V) (h : ℕ) (e : SnukEnv V) (i : ℕ)
      → e.name.len ≤ length e.name.str
      → snuk_scope_lookup st h e.name ≡ none
      → ((snuk_scope_add_env h e st).1 ≡ true)
        × ((snuk_scope_remove_env h e.name (snuk_scope_add_env h e st).0).scopes i ≡ st.scopes i)
  unfolding snuk_scope_remove_env snuk_scope_lookup
  remove-add st h e i fits free = rw (add_env-free st h e free) (
    refl,
    elim (Bool-cases (i == h)) [
      | inl same ↦
          let e' : i ≡ h = (==_iff i h).0 same in
          rw e' (
            removed_here st h e
              (remove_from-append (st.scopes h).vars e free (same_name e.name fits)))
      | inr other ↦
          set_scope-other (set_vars h ((st.scopes h).vars ++ (e ∷ [])) st) h _ i other
          ∙ set_scope-other st h (record (st.scopes h) { vars = (st.scopes h).vars ++ (e ∷ []) }) i
              other
    ],
  )
