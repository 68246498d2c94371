-- ===== src/Scopes/Shadow.antt =====
-- include/snuk/interpreter/interpreter_helper.h: entering a scope, binding a name in it, and leaving it.
use snuk.Prelude.{
  ℕ, suc, ◌<◌, Bool, true, false, List, [], ◌∷◌, length, Option, none, some, ok, ◌≡◌, refl, arith,
  ◌==◌, if◌then◌else◌, ap, ap₂, ◌∙◌, sym, ◌++◌,
}
use snuk.Text.{StringView, equal}
use snuk.Scopes.{
  SnukEnv, SnukScope, Store, Frame, lookup_in, snuk_scope_lookup, snuk_scope_lookup_recursive,
  snuk_scope_create, snuk_scope_add_env, set_vars, set_scope, interpreter_push_scope,
  interpreter_pop_scope,
}
use snuk.Scopes.Chain.{Chain, bindings, Below, lookup_recursive_lem, Chain-agrees}

pub other_scope : (n i : ℕ) → i < n → (i == n) ≡ false
other_scope n i lt = ground arith

pub same_scope : (n : ℕ) → (n == n) ≡ true
same_scope n = ground arith

module _ {V : Type 0} where
  -- The store behind entering a scope, and behind binding `e` there.
  abbrev pub entered : Store V → Frame → Store V × Frame
  entered st f = interpreter_push_scope st f

  abbrev pub bound : Store V → Frame → SnukEnv V → Store V × Bool
  bound st f e = snuk_scope_add_env (entered st f).1.current e (entered st f).0

  abbrev empty_scope : ℕ → SnukScope V
  empty_scope h = record { vars = []; parent = some h; weak_ref = false }

  entered-empty :
      (st : Store V) (f : Frame) (name : StringView)
      → snuk_scope_lookup (entered st f).0 st.next name ≡ none
  unfolding interpreter_push_scope snuk_scope_create snuk_scope_lookup lookup_in
  entered-empty st f name =
      ap (λ b. lookup_in (if b then empty_scope f.current else st.scopes st.next).vars name)
        (same_scope st.next)

  pub add_env-free :
      (st : Store V) (h : ℕ) (e : SnukEnv V)
      → snuk_scope_lookup st h e.name ≡ none
      → snuk_scope_add_env h e st ≡ (set_vars h ((st.scopes h).vars ++ (e ∷ [])) st, true)
  unfolding snuk_scope_add_env
  add_env-free st h e free = rw (free, snuk_scope_add_env) refl

  pub set_scope-other :
      (st : Store V) (h : ℕ) (s : SnukScope V) (i : ℕ)
      → (i == h) ≡ false
      → (set_scope h s st).scopes i ≡ st.scopes i
  set_scope-other st h s i other = rw other refl

  bound_lem :
      (st : Store V) (f : Frame) (e : SnukEnv V)
      → bound st f e ≡ (
        set_vars st.next (((entered st f).0.scopes st.next).vars ++ (e ∷ [])) (entered st f).0,
        true,
      )
  unfolding interpreter_push_scope snuk_scope_create
  bound_lem st f e = add_env-free (entered st f).0 st.next e (entered-empty st f e.name)

  bound-agrees :
      (st : Store V) (f : Frame) (e : SnukEnv V) (i : ℕ)
      → i < st.next
      → (bound st f e).0.scopes i ≡ st.scopes i
  unfolding interpreter_push_scope snuk_scope_create
  bound-agrees st f e i lt =
      ap (λ r. r.0.scopes i) (bound_lem st f e)
      ∙ set_scope-other (entered st f).0 st.next _ i (other_scope st.next i lt)
      ∙ set_scope-other st st.next (empty_scope f.current) i (other_scope st.next i lt)

  bound-new :
      (st : Store V) (f : Frame) (e : SnukEnv V)
      → ((bound st f e).0.scopes st.next
          ≡ record { vars = e ∷ []; parent = some f.current; weak_ref = false })
        × ((bound st f e).1 ≡ true)
  unfolding interpreter_push_scope snuk_scope_create
  bound-new st f e = (
    ap (λ r. r.0.scopes st.next) (bound_lem st f e)
        ∙ ap
            (λ b.
              if b
              then record (if b then empty_scope f.current else st.scopes st.next) {
                vars = (if b then empty_scope f.current else st.scopes st.next).vars ++ (e ∷ []);
              }
              else (if b then empty_scope f.current else st.scopes st.next))
            (same_scope st.next),
    ap (λ r. r.1) (bound_lem st f e),
  )

  found_first :
      (b : Bool) (e : SnukEnv V) (x : Option (SnukEnv V)) (y : Option (Option (SnukEnv V)))
      → y ≡ some x
      → some (if b then some e else x) ≡ (if b then some (some e) else y)
  found_first true e x y h = refl
  found_first false e x y h = sym h

  -- Where the parents of the current scope come to an end and they and the global scope were
  -- created, entering a scope and binding a name there succeeds. In the new scope the name has this
  -- binding, and every other name the one that it had outside; leaving the scope gives back the
  -- references of before, from which every name has the binding of before, with two rounds more
  -- than there are scopes.
  pub scope_lem :
      (st : Store V) (f : Frame) (e : SnukEnv V) (hs : List ℕ)
      → Chain st (some f.current) hs
      → Below st.next hs
      → f.global < st.next
      → (rounds : ℕ) (name : StringView) → suc (length hs) < rounds
      → ((bound st f e).1 ≡ true)
        × (snuk_scope_lookup_recursive rounds (bound st f e).0 (some (entered st f).1.current) name
            ≡ (if equal e.name name
                then some (some e)
                else snuk_scope_lookup_recursive rounds st (some f.current) name))
        × (interpreter_pop_scope (bound st f e).0 (entered st f).1 ≡ ok f)
        × (snuk_scope_lookup_recursive rounds (bound st f e).0 (some f.current) name
            ≡ snuk_scope_lookup_recursive rounds st (some f.current) name)
  unfolding interpreter_push_scope snuk_scope_create interpreter_pop_scope lookup_in
  scope_lem st f e hs c b lt rounds name enough =
      let st' = (bound st f e).0 in
      let (new, free) = bound-new st f e in
      let (c', same) = Chain-agrees st st' st.next (some f.current) hs (bound-agrees st f e) c b in
      let before =
        lookup_recursive_lem st (some f.current) hs c rounds name (omega (arith, enough)) in
      let outside =
        lookup_recursive_lem st' (some f.current) hs c' rounds name (omega (arith, enough)) in
      let inner : Chain st' (some st.next) (st.next ∷ hs) =
        Chain.chain_step st.next hs (rw new c') in
      let inside =
        lookup_recursive_lem st' (some st.next) (st.next ∷ hs) inner rounds name enough in
      (
        free,
        inside
            ∙ ap₂ (λ s es. some (lookup_in (s.vars ++ es) name)) new same
            ∙ found_first (equal e.name name) e (lookup_in (bindings st hs) name)
                (snuk_scope_lookup_recursive rounds st (some f.current) name) before,
        rw (other_scope st.next f.global lt, new) refl,
        outside ∙ ap (λ es. some (lookup_in es name)) same ∙ sym before,
      )
