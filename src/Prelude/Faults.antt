-- ===== src/Prelude/Faults.antt =====
-- What a run of C code comes to: a result, or a fault. `trap` is a failed `SNUK_ASSERT` of a debug
-- build; `wild` is an access outside of an object, or arithmetic that C leaves undefined.
use mathlib.Core.Path.{◌≡◌, refl}
use mathlib.Core.Logic.{◌⊎◌, inl, inr}

pub data Fault : Type 0 where
  scope_mismatch should_not_reach non_stack_order null_counter : Fault
  no_strong no_weak index_out_of_bound wild weak_parent : Fault

pub data Outcome {ℓ} (A : Type ℓ) : Type ℓ where
  ok : A → Outcome A
  trap : Fault → Outcome A

infixl 5 ◌>>=◌
abbrev pub ◌>>=◌ {ℓ κ} : {A : Type ℓ} {B : Type κ} → Outcome A → (A → Outcome B) → Outcome B
ok a >>= f = f a
trap e >>= f = trap e

pub Outcome-cases {ℓ} :
    {A : Type ℓ} (m : Outcome A) → ((a : A) × (m ≡ ok a)) ⊎ ((e : Fault) × (m ≡ trap e))
Outcome-cases (ok a) = inl (a, refl)
Outcome-cases (trap e) = inr (e, refl)
