-- ===== src/Scopes/Tests.antt =====
-- The theorems about scopes at concrete inputs.
use snuk.Prelude.{
  ℕ, zero, List, [], ◌∷◌, none, some, true, false, ok, ◌≡◌, refl, arith, codes, if◌then◌else◌,
}
use snuk.Text.{StringView, equal}
use snuk.Types
use snuk.Scopes.{
  SnukEnv, SnukScope, Store, Frame, lookup_in, snuk_scope_lookup, snuk_scope_add_env,
  snuk_scope_remove_env, snuk_scope_lookup_recursive, interpreter_pop_scope,
}
use snuk.Scopes.Chain.{Chain, bindings, lookup_recursive_lem}
use snuk.Scopes.Removal.{remove-add}
use snuk.Scopes.Shadow.{entered, bound, scope_lem}

abbrev name_of : List ℕ → StringView
name_of s = record { str = s; len = 1 }

abbrev env : List ℕ → ℕ → SnukEnv ℕ
env s n = record { name = name_of s; type = Types.type_any; value = n }

-- Scope 1 with `y` in scope 0 with `x` and `y`.
abbrev scopes : ℕ → SnukScope ℕ
scopes zero = record {
  vars = env (codes "x") 1 ∷ env (codes "y") 2 ∷ [];
  parent = none;
  weak_ref = false;
}
scopes _ = record { vars = env (codes "y") 3 ∷ []; parent = some 0; weak_ref = false }

abbrev two_scopes : Store ℕ
two_scopes = record { scopes = scopes; next = 2 }

abbrev frame : Frame
frame = record { global = 0; current = 1; instance_scope = none }

chain : Chain two_scopes (some 1) (1 ∷ 0 ∷ [])
chain = Chain.chain_step 1 (0 ∷ []) (Chain.chain_step 0 [] Chain.chain_end)

lookup_recursive_lem_example :
    snuk_scope_lookup_recursive 3 two_scopes (some 1) (name_of (codes "y"))
    ≡ some (lookup_in (bindings two_scopes (1 ∷ 0 ∷ [])) (name_of (codes "y")))
lookup_recursive_lem_example =
    lookup_recursive_lem two_scopes (some 1) (1 ∷ 0 ∷ []) chain 3 (name_of (codes "y"))
      (omega arith)

-- `x` in a new scope.
abbrev inner_x : SnukEnv ℕ
inner_x = env (codes "x") 4

scope_lem_example :
    ((bound two_scopes frame inner_x).1 ≡ true)
    × (snuk_scope_lookup_recursive 4
          (bound two_scopes frame inner_x).0
          (some (entered two_scopes frame).1.current)
          (name_of (codes "x"))
        ≡ (if equal (name_of (codes "x")) (name_of (codes "x"))
            then some (some inner_x)
            else snuk_scope_lookup_recursive 4 two_scopes (some 1) (name_of (codes "x"))))
    × (interpreter_pop_scope (bound two_scopes frame inner_x).0 (entered two_scopes frame).1
        ≡ ok frame)
    × (snuk_scope_lookup_recursive 4
          (bound two_scopes frame inner_x).0
          (some 1)
          (name_of (codes "x"))
        ≡ snuk_scope_lookup_recursive 4 two_scopes (some 1) (name_of (codes "x")))
scope_lem_example =
    scope_lem two_scopes frame inner_x (1 ∷ 0 ∷ []) chain (omega arith, (omega arith, tt))
      (omega arith) 4 (name_of (codes "x")) (omega arith)

remove-add_example :
    ((snuk_scope_add_env 1 inner_x two_scopes).1 ≡ true)
    × ((snuk_scope_remove_env 1
            (name_of (codes "x"))
            (snuk_scope_add_env 1 inner_x two_scopes).0).scopes
          1
        ≡ scopes 1)
unfolding lookup_in snuk_scope_lookup equal
remove-add_example = remove-add two_scopes 1 inner_x 1 (omega arith) refl
