-- ===== src/Scopes/Chain.antt =====
-- include/snuk/interpreter/snuk_scope.h: looking up a name through the parents.
use snuk.Prelude.{
  ℕ, zero, suc, ◌<◌, Bool, true, false, List, [], ◌∷◌, ◌++◌, length, Option, none, some, ◌≡◌, refl,
  arith, if◌then◌else◌, ap₂,
}
use snuk.Text.{StringView, equal}
use snuk.Scopes.{SnukEnv, Store, lookup_in, snuk_scope_lookup, snuk_scope_lookup_recursive}

-- The scopes were created.
abbrev pub Below : ℕ → List ℕ → Type 0
Below n [] = Unit {0}
Below n (h ∷ hs) = (h < n) × Below n hs

module _ {V : Type 0} where
  -- The scopes from a reference up to the outermost.
  pub data Chain (st : Store V) : Option ℕ → List ℕ → Type 0 where
    chain_end : Chain st none []
    chain_step :
        (h : ℕ) (hs : List ℕ) → Chain st (st.scopes h).parent hs → Chain st (some h) (h ∷ hs)

  -- The bindings of these scopes, the innermost first.
  abbrev pub bindings : Store V → List ℕ → List (SnukEnv V)
  bindings st [] = []
  bindings st (h ∷ hs) = (st.scopes h).vars ++ bindings st hs

  -- What is found first.
  abbrev pub or_else : Option (SnukEnv V) → Option (SnukEnv V) → Option (SnukEnv V)
  or_else none b = b
  or_else (some e) b = some e

  pub lookup-append :
      (es fs : List (SnukEnv V)) (name : StringView)
      → lookup_in (es ++ fs) name ≡ or_else (lookup_in es name) (lookup_in fs name)
  unfolding lookup_in
  lookup-append [] fs name = refl
  lookup-append (e ∷ es) fs name =
      first (equal e.name name) (lookup_in (es ++ fs) name) (lookup_in es name) (lookup_in fs name)
        (lookup-append es fs name)
    where
      first :
          (b : Bool) (x y z : Option (SnukEnv V))
          → x ≡ or_else y z
          → (if b then some e else x) ≡ or_else (if b then some e else y) z
      first true x y z h = refl
      first false x y z h = h

  -- Where the parents of a scope come to an end, looking up a name through them ends within one round
  -- more than there are scopes, and finds the first binding of the name from the inside out.
  pub lookup_recursive_lem :
      (st : Store V) (h : Option ℕ) (hs : List ℕ)
      → Chain st h hs
      → (rounds : ℕ) (name : StringView) → length hs < rounds
      → snuk_scope_lookup_recursive rounds st h name ≡ some (lookup_in (bindings st hs) name)
  unfolding snuk_scope_lookup_recursive snuk_scope_lookup
  lookup_recursive_lem st h hs c zero name lt = absurd (omega (arith, lt))
  lookup_recursive_lem st h hs chain_end (suc rounds) name lt = refl
  lookup_recursive_lem st h hs (chain_step k ks c) (suc rounds) name lt =
      rw (lookup-append (st.scopes k).vars (bindings st ks) name) (
        found (lookup_in (st.scopes k).vars name)
          (lookup_recursive_lem st (st.scopes k).parent ks c rounds name (omega (arith, lt))))
    where
      found :
          (m : Option (SnukEnv V)) {x : Option (Option (SnukEnv V))} {y : Option (SnukEnv V)}
          → x ≡ some y
          → (elim m [ some e ↦ some (some e) | none ↦ x ]) ≡ some (or_else m y)
      found none h = h
      found (some e) h = refl

  -- A store that has the same scopes below `n` has the same chains of them.
  pub Chain-agrees :
      (st st' : Store V) (n : ℕ) (h : Option ℕ) (hs : List ℕ)
      → ((i : ℕ) → i < n → st'.scopes i ≡ st.scopes i)
      → Chain st h hs
      → Below n hs
      → Chain st' h hs × (bindings st' hs ≡ bindings st hs)
  Chain-agrees st st' n h hs same chain_end b = (chain_end, refl)
  Chain-agrees st st' n h hs same (chain_step k ks c) (lt, b) =
      let (c', e) = Chain-agrees st st' n (st.scopes k).parent ks same c b in
      (chain_step k ks (rw (same k lt) c'), ap₂ (λ s es. s.vars ++ es) (same k lt) e)
