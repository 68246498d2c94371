-- ===== src/Scopes.antt =====
-- include/snuk/interpreter/snuk_scope.h and snuk_env.h, and the functions of interpreter_helper.h that
-- look up names and enter and leave scopes. A reference to a scope is its number in the store; what the
-- references count is in `RefCount`, and a scope that nothing refers to stays in the store here. `V` are
-- the values, whose copies are the values again.
pub mod Chain
pub mod Shadow
pub mod Removal
pub mod Inverse
mod Tests
use snuk.Prelude.{
  ℕ, zero, suc, ◌+◌, Bool, true, false, List, [], ◌∷◌, ◌++◌, Option, none, some, ◌==◌,
  if◌then◌else◌, Outcome, ok, trap, should_not_reach, null_counter, weak_parent,
}
use snuk.Text.{StringView, equal}
use snuk.Types.{SnukType}

pub record SnukEnv (V : Type 0) : Type 0 where
  pub name : StringView
  pub type : SnukType
  pub value : V

pub record SnukScope (V : Type 0) : Type 0 where
  pub vars : List (SnukEnv V)
  pub parent : Option ℕ
  pub weak_ref : Bool

-- The scopes that were created are those below `next`.
pub record Store (V : Type 0) : Type 0 where
  pub scopes : ℕ → SnukScope V
  pub next : ℕ

-- The references that the interpreter holds.
pub record Frame : Type 0 where
  pub global : ℕ
  pub current : ℕ
  pub instance_scope : Option ℕ

module _ {V : Type 0} where
  abbrev pub set_scope : ℕ → SnukScope V → Store V → Store V
  set_scope h s st = record st { scopes = λ i. if i == h then s else st.scopes i }

  unfoldable pub snuk_env_create : StringView → SnukType → V → SnukEnv V
  snuk_env_create name type value = record { name = name; type = type; value = value }

  -- The loop of `snuk_scope_lookup`.
  unfoldable pub lookup_in : List (SnukEnv V) → StringView → Option (SnukEnv V)
  unfolding equal
  lookup_in [] name = none
  lookup_in (e ∷ es) name =
      let rest = lookup_in es name in if equal e.name name then some e else rest

  unfoldable pub snuk_scope_lookup : Store V → ℕ → StringView → Option (SnukEnv V)
  unfolding lookup_in
  snuk_scope_lookup st h name = lookup_in (st.scopes h).vars name

  -- `none` where more rounds are needed, since the parents might go in a circle.
  unfoldable pub snuk_scope_lookup_recursive :
      ℕ → Store V → Option ℕ → StringView → Option (Option (SnukEnv V))
  unfolding snuk_scope_lookup
  snuk_scope_lookup_recursive zero st h name = none
  snuk_scope_lookup_recursive (suc rounds) st none name = some none
  snuk_scope_lookup_recursive (suc rounds) st (some h) name = elim (snuk_scope_lookup st h name) [
    | some e ↦ some (some e)
    | none ↦ snuk_scope_lookup_recursive rounds st (st.scopes h).parent name
  ]

  unfoldable pub snuk_scope_create : Option ℕ → Bool → Store V → Store V × ℕ
  snuk_scope_create parent weak_ref st = (
    record (set_scope st.next (record { vars = []; parent = parent; weak_ref = weak_ref }) st) {
      next = suc st.next;
    },
    st.next,
  )

  abbrev pub set_vars : ℕ → List (SnukEnv V) → Store V → Store V
  set_vars h es st = set_scope h (record (st.scopes h) { vars = es }) st

  -- The store, and whether the name was free.
  unfoldable pub snuk_scope_add_env : ℕ → SnukEnv V → Store V → Store V × Bool
  unfolding snuk_scope_lookup
  snuk_scope_add_env h e st = elim (snuk_scope_lookup st h e.name) [
    | some found ↦ (st, false)
    | none ↦ (set_vars h ((st.scopes h).vars ++ (e ∷ [])) st, true)
  ]

  unfoldable pub remove_from : List (SnukEnv V) → StringView → List (SnukEnv V)
  unfolding equal
  remove_from [] name = []
  remove_from (e ∷ es) name =
      let rest = remove_from es name in if equal e.name name then es else e ∷ rest

  unfoldable pub snuk_scope_remove_env : ℕ → StringView → Store V → Store V
  unfolding remove_from
  snuk_scope_remove_env h name st = set_vars h (remove_from (st.scopes h).vars name) st

  -- The binding gets another value.
  unfoldable pub snuk_env_assign_value : V → SnukEnv V → SnukEnv V
  snuk_env_assign_value value e = record e { value = value }

  unfoldable pub snuk_scope_destroy_envs : ℕ → Store V → Store V
  snuk_scope_destroy_envs h st = set_vars h [] st

  -- A scope whose parent is the null pointer has no counter to downgrade.
  unfoldable pub snuk_scope_downgrade_parent : ℕ → Store V → Outcome (Store V)
  snuk_scope_downgrade_parent h st =
      let s = st.scopes h in
      if s.weak_ref then trap weak_parent else elim (s.parent) [
        | none ↦ trap null_counter
        | some p ↦ ok (set_scope h (record s { weak_ref = true }) st)
      ]

  unfoldable pub snuk_scope_release_parent : ℕ → Store V → Store V
  snuk_scope_release_parent h st = set_scope h (record (st.scopes h) { parent = none }) st

  unfoldable pub snuk_scope_set_parent : ℕ → Option ℕ → Bool → Store V → Store V
  snuk_scope_set_parent h parent weak_ref st =
      set_scope h (record (st.scopes h) { parent = parent; weak_ref = weak_ref }) st

  -- The closure and the type scope of a type or an instance, where the value is one.
  unfoldable pub interpreter_get_member_env :
      Store V → Option (ℕ × Option ℕ) → StringView → Option (SnukEnv V)
  unfolding snuk_scope_lookup
  interpreter_get_member_env st none field = none
  interpreter_get_member_env st (some (closure, none)) field = snuk_scope_lookup st closure field
  interpreter_get_member_env st (some (closure, some type_scope)) field =
      elim (snuk_scope_lookup st closure field) [
        | some e ↦ some e
        | none ↦ snuk_scope_lookup st type_scope field
      ]

  -- The bindings of an instance come behind those of the current scope.
  unfoldable pub interpreter_lookup : ℕ → Store V → Frame → StringView → Option (Option (SnukEnv V))
  unfolding snuk_scope_lookup snuk_scope_lookup_recursive
  interpreter_lookup rounds st f name = elim (f.instance_scope) [
    | none ↦ snuk_scope_lookup_recursive rounds st (some f.current) name
    | some instance_scope ↦ elim (snuk_scope_lookup st f.current name) [
      | some e ↦ some (some e)
      | none ↦ elim (snuk_scope_lookup st instance_scope name) [
        | some e ↦ some (some e)
        | none ↦ snuk_scope_lookup_recursive rounds st (some f.current) name
      ]
    ]
  ]

  unfoldable pub interpreter_push_scope : Store V → Frame → Store V × Frame
  unfolding snuk_scope_create
  interpreter_push_scope st f =
      let r = snuk_scope_create (some f.current) false st in (r.0, record f { current = r.1 })

  -- The global scope is not left; the parent of another one is never the null pointer.
  unfoldable pub interpreter_pop_scope : Store V → Frame → Outcome Frame
  interpreter_pop_scope st f =
      if f.global == f.current then trap should_not_reach else elim (st.scopes f.current).parent [
        | none ↦ trap null_counter
        | some h ↦ ok (record f { current = h })
      ]
