-- ===== src/Interpreter/Printing.antt =====
-- src/interpreter/interpreter.c: which values can be printed.
mod Tests
use snuk.Prelude.{
  ℕ, zero, suc, Bool, true, false, List, [], ◌∷◌, ◌++◌, Option, none, some, Outcome, ok, trap, ◌≡◌,
  refl, ◌⊎◌, inl, inr, codes, Bool-cases, should_not_reach, if◌then◌else◌,
}
use snuk.Text.{equal_cstr}
use snuk.Values
use snuk.Scopes.{SnukEnv, Store}
use snuk.Interpreter.State
use snuk.Interpreter.State.{Ref, Value, SnukInterpreter, Run, done, fault, read}
use snuk.Interpreter.Control.{can_print, can_print_members, print_value}

-- The answer is a fault just where the statement holds.
abbrev Verdict : Type 0 → Option (Outcome (Unit {0})) → Type 0
Verdict U o = ((o ≡ some (ok tt)) × ¬ U) ⊎ ((o ≡ some (trap should_not_reach)) × U)

module _ {F : Type 0} where
  abbrev is_self : SnukEnv (Value F) → Bool
  is_self e = equal_cstr e.name (codes "self")

  mutual
    -- A function in C, an interface or an error, or an instance with a member that is unprintable.
    pub data Unprintable (st : Store (Value F)) : Value F → Type 0 where
      native_function : (r : Ref F) → Unprintable st (Values.fn_native r)
      some_interface : (r : Ref F) → Unprintable st (Values.interface r)
      some_error : Unprintable st Values.error
      instance :
          (r : Ref F) (b : Bool)
          → SomeUnprintable st (st.scopes r.closure).vars
          → Unprintable st (Values.type_inst r b)

    -- One of the bindings, which is not that of `self`, has an unprintable value.
    pub data SomeUnprintable (st : Store (Value F)) : List (SnukEnv (Value F)) → Type 0 where
      here :
          (e : SnukEnv (Value F)) (es : List (SnukEnv (Value F)))
          → is_self e ≡ false
          → Unprintable st e.value
          → SomeUnprintable st (e ∷ es)
      there :
          (e : SnukEnv (Value F)) (es : List (SnukEnv (Value F)))
          → SomeUnprintable st es
          → SomeUnprintable st (e ∷ es)

  -- What holds of the values of all bindings but `self`.
  abbrev pub AllMembers : (Value F → Type 0) → List (SnukEnv (Value F)) → Type 0
  AllMembers P [] = Unit {0}
  AllMembers P (e ∷ es) = ((is_self e ≡ true) ⊎ P e.value) × AllMembers P es

  -- Instances are inside of each other in fewer than this many steps, so none contains itself.
  abbrev pub NestsWithin : Store (Value F) → ℕ → Value F → Type 0
  NestsWithin st zero v = ⊥
  NestsWithin st (suc n) (Values.type_inst r b) =
      AllMembers (NestsWithin st n) (st.scopes r.closure).vars
  NestsWithin st (suc n) v = Unit {0}

  none_of : (st : Store (Value F)) → ¬ SomeUnprintable st []
  none_of st = elim [ ]

  split_some :
      (st : Store (Value F)) (e : SnukEnv (Value F)) (es : List (SnukEnv (Value F)))
      → SomeUnprintable st (e ∷ es)
      → ((is_self e ≡ false) × Unprintable st e.value) ⊎ SomeUnprintable st es
  split_some st e es (here _ _ p u) = inl (p, u)
  split_some st e es (there _ _ u) = inr u

  not_here :
      (st : Store (Value F)) (e : SnukEnv (Value F)) (es : List (SnukEnv (Value F)))
      (o : Option (Outcome (Unit {0})))
      → ((is_self e ≡ true) ⊎ ¬ Unprintable st e.value)
      → Verdict (SomeUnprintable st es) o
      → Verdict (SomeUnprintable st (e ∷ es)) o
  not_here st e es o h (inr (q, u)) = inr (q, there e es u)
  not_here st e es o h (inl (q, n)) = inl (
    q,
    λ u. elim (split_some st e es u) [
      | inl (p, w) ↦ elim h [ inl r ↦ cc | inr k ↦ k w ]
      | inr w ↦ n w
    ],
  )

  members-Verdict :
      (st : Store (Value F)) (P : Value F → Type 0) (again : Value F → Option (Outcome (Unit {0})))
      → ((v : Value F) → P v → Verdict (Unprintable st v) (again v))
      → (es : List (SnukEnv (Value F))) → AllMembers P es
      → Verdict (SomeUnprintable st es) (can_print_members again es)
  unfolding can_print_members
  members-Verdict st P again k [] h = inl (refl, none_of st)
  members-Verdict st P again k (e ∷ es) (h, hs) =
      let rest = members-Verdict st P again k es hs in
      elim (Bool-cases (is_self e)) [
        | inl p ↦ rw p (not_here st e es _ (inl p) rest)
        | inr p ↦ elim h [
          | inl q ↦ absurd (cc)
          | inr w ↦ elim (k e.value w) [
            | inl (q, n) ↦ rw (p, q) (not_here st e es _ (inr n) rest)
            | inr (q, u) ↦ rw (p, q) (inr (refl, here e es p u))
          ]
        ]
      ]

  can_print-Verdict :
      (rounds : ℕ) (st : Store (Value F)) (v : Value F)
      → NestsWithin st rounds v
      → Verdict (Unprintable st v) (can_print rounds st v)
  unfolding can_print
  can_print-Verdict zero st v h = elim h [ ]
  can_print-Verdict (suc n) st (Values.type_inst r b) h =
      elim (members-Verdict st (NestsWithin st n) (can_print n st) (can_print-Verdict n st)
        (st.scopes r.closure).vars h) [
          | inl (q, k) ↦ inl (q, elim [ instance _ _ u ↦ k u ])
          | inr (q, u) ↦ inr (q, instance r b u)
        ]
  can_print-Verdict (suc n) st (Values.fn_native r) h = inr (refl, native_function r)
  can_print-Verdict (suc n) st (Values.interface r) h = inr (refl, some_interface r)
  can_print-Verdict (suc n) st Values.error h = inr (refl, some_error)
  can_print-Verdict (suc n) st v h = inl (refl, elim [ ])

  -- Where instances are inside of each other in fewer steps than there are rounds, printing a value comes
  -- to an end: where a function in C, an interface or an error is the value, or is a member of an instance
  -- in it at any depth, but not under the name `self`, with a fault, and else with the value written.
  pub print_value-ends :
      (rounds : ℕ) (v : Value F) (s : SnukInterpreter F)
      → NestsWithin s.store rounds v
      → ((print_value rounds v s ≡ done tt (record s { output = s.output ++ (State.shown v ∷ []) }))
          × ¬ Unprintable s.store v)
        ⊎ ((print_value rounds v s ≡ fault should_not_reach) × Unprintable s.store v)
  unfolding print_value
  print_value-ends rounds v s h = elim (can_print-Verdict rounds s.store v h) [
    | inl (q, n) ↦ inl (rw q refl, n)
    | inr (q, u) ↦ inr (rw q refl, u)
  ]
