-- ===== src/RefCount/Steps.antt =====
-- Runs of a counter against the numbers of references that its holders have.
use snuk.Prelude.{
  ℕ, zero, suc, ◌+◌, ◌-◌, ◌≤◌, ◌<◌, ◌≡◌, refl, ap, ◌∙◌, Bool, true, false, not, ◌&&◌, Outcome, ok,
  trap, ◌>>=◌, Option, none, some, Bool-cases, inl, inr, List, [], ◌∷◌, length, ◌==◌, if◌then◌else◌,
  arith,
}
use snuk.RefCount.{
  RefCounter, count, create, retain, retain_weak, release, release_weak, downgrade, free_unused,
  drop_object,
}

pub data Op : Type 0 where
  op_retain op_retain_weak op_release op_release_weak op_downgrade : Op

unfoldable pub apply : Op → RefCounter → Outcome RefCounter
apply op_retain rc = retain rc >>= λ r. ok (r.0)
apply op_retain_weak rc = retain_weak rc >>= λ r. ok (r.0)
apply op_release rc = release rc
apply op_release_weak rc = release_weak rc
apply op_downgrade rc = downgrade rc

unfoldable pub run : List Op → RefCounter → Outcome RefCounter
run [] rc = ok rc
run (op ∷ ops) rc = apply op rc >>= run ops

-- The strong and weak references that are held after an operation; `none` where no holder may ask
-- for it, since the reference that it uses is not there.
unfoldable pub held_step : Op → ℕ → ℕ → Option (ℕ × ℕ)
held_step op_retain (suc s) w = some (suc (suc s), w)
held_step op_retain zero (suc w) = some (zero, suc w)
held_step op_retain_weak (suc s) w = some (suc s, suc w)
held_step op_retain_weak zero (suc w) = some (zero, suc (suc w))
held_step op_release (suc s) w = some (s, w)
held_step op_release_weak s (suc w) = some (s, w)
held_step op_downgrade (suc s) w = some (s, suc w)
held_step _ _ _ = none

unfoldable pub held : List Op → ℕ → ℕ → Option (ℕ × ℕ)
held [] s w = some (s, w)
held (op ∷ ops) s w = elim (held_step op s w) [ none ↦ none | some p ↦ held ops (p.0) (p.1) ]

-- The counter of `s` strong and `w` weak references: the object is there while a strong one is, its
-- `free_fn` has been called once when none is left, and the counter's memory is given back with the
-- last reference.
unfoldable pub counter_of : ℕ → ℕ → RefCounter
counter_of s w = record {
  mem = not (s == 0);
  strong_count = s;
  weak_count = w;
  freed = s + w == 0;
  free_calls = if s == 0 then 1 else 0;
}

abbrev pub word : ℕ
word = 18446744073709551616

data Fine (op : Op) (s w : ℕ) : Option (ℕ × ℕ) → Type 0 where
  refused : Fine op s w none
  steps :
      (s' w' : ℕ)
      → apply op (counter_of s w) ≡ ok (counter_of s' w')
      → s' + w' ≤ s + w + 1
      → Fine op s w (some (s', w'))

used : (s w : ℕ) → (suc s + w == 0) ≡ false
used s w = ground arith

used_weak : (s w : ℕ) → (s + suc w == 0) ≡ false
used_weak s w = ground arith

nonzero : (s : ℕ) → (suc s == 0) ≡ false
nonzero s = ground arith

counted : (n : ℕ) → n < word → count n ≡ n
counted n lt = omega arith

next_count : (n : ℕ) → n + 1 < word → count (n + 1) ≡ suc n
next_count n lt = omega arith

one_less : (n : ℕ) → suc n - 1 ≡ n
one_less n = omega arith

free_unused_lem :
    (m : Bool) (s w c : ℕ)
    → s + w < word
    → free_unused
        (record { mem = m; strong_count = s; weak_count = w; freed = false; free_calls = c })
      ≡ record { mem = m; strong_count = s; weak_count = w; freed = s + w == 0; free_calls = c }
unfolding free_unused
free_unused_lem m s w c lt = elim (Bool-cases (s + w == 0)) [
  | inl e ↦ simp (counted (s + w) lt, e) refl
  | inr e ↦ simp (counted (s + w) lt, e) refl
]

retain_held :
    (s w : ℕ)
    → suc s + w + 1 < word
    → apply op_retain (counter_of (suc s) w) ≡ ok (counter_of (suc (suc s)) w)
unfolding apply retain counter_of
retain_held s w lt =
    simp
      (used s w, used (suc s) w, nonzero s, nonzero (suc s), next_count (suc s) (omega (arith, lt)))
      refl

retain_dead : (w : ℕ) → apply op_retain (counter_of zero (suc w)) ≡ ok (counter_of zero (suc w))
unfolding apply retain counter_of
retain_dead w = simp (used_weak 0 w) refl

retain_weak_held :
    (s w : ℕ)
    → s + w + 1 < word
    → (s + w == 0) ≡ false
    → apply op_retain_weak (counter_of s w) ≡ ok (counter_of s (suc w))
unfolding apply retain_weak counter_of
retain_weak_held s w lt any =
    simp (any, neither, next_count w (omega (arith, lt)), used_weak s w) refl
  where
    neither : (w == 0 && s == 0) ≡ false
    neither = ground arith

release_held :
    (s w : ℕ) → suc s + w < word → apply op_release (counter_of (suc s) w) ≡ ok (counter_of s w)
unfolding apply release drop_object counter_of
release_held zero w lt = simp (used 0 w, free_unused_lem false 0 w 1 (omega (arith, lt))) refl
release_held (suc s) w lt =
    simp
      (
        used (suc s) w,
        nonzero (suc s),
        nonzero s,
        second,
        one_less (suc s),
        free_unused_lem true (suc s) w 0 (omega (arith, lt)),
      )
      refl
  where
    second : (suc (suc s) == 1) ≡ false
    second = ground arith

release_weak_held :
    (s w : ℕ)
    → s + suc w < word
    → apply op_release_weak (counter_of s (suc w)) ≡ ok (counter_of s w)
unfolding apply release_weak counter_of
release_weak_held s w lt =
    simp (used_weak s w, nonzero w, one_less w, free_unused_lem _ s w _ (omega (arith, lt))) refl

first_bind :
    {A B C : Type 0} (m : Outcome (A × B)) (f : A → Outcome C)
    → (m >>= λ r. f (r.0)) ≡ ((m >>= λ r. ok (r.0)) >>= f)
first_bind (ok r) f = refl
first_bind (trap e) f = refl

-- A downgrade is a weak retain and then a release.
downgrade_held :
    (s w : ℕ)
    → suc s + w + 1 < word
    → apply op_downgrade (counter_of (suc s) w) ≡ ok (counter_of s (suc w))
unfolding apply downgrade
downgrade_held s w lt =
    first_bind (retain_weak (counter_of (suc s) w)) release
    ∙ ap (λ o. o >>= release) (retain_weak_held (suc s) w lt (used s w))
    ∙ release_held s (suc w) (omega (arith, lt))

step : (op : Op) (s w : ℕ) → s + w + 1 < word → Fine op s w (held_step op s w)
unfolding held_step
step op_retain (suc s) w small = steps (suc (suc s)) w (retain_held s w small) (omega arith)
step op_retain zero (suc w) small = steps zero (suc w) (retain_dead w) (omega arith)
step op_retain_weak (suc s) w small =
    steps (suc s) (suc w) (retain_weak_held (suc s) w small (used s w)) (omega arith)
step op_retain_weak zero (suc w) small =
    steps zero (suc (suc w)) (retain_weak_held zero (suc w) small (used_weak 0 w)) (omega arith)
step op_release (suc s) w small = steps s w (release_held s w (omega (arith, small))) (omega arith)
step op_release_weak s (suc w) small =
    steps s w (release_weak_held s w (omega (arith, small))) (omega arith)
step op_downgrade (suc s) w small = steps s (suc w) (downgrade_held s w small) (omega arith)
step _ _ _ small = refused

run-step :
    (op : Op) (ops : List Op) (s w : ℕ) (o : Option (ℕ × ℕ)) (end : RefCounter) (p : ℕ × ℕ)
    → Fine op s w o
    → ((s1 w1 : ℕ)
        → s1 + w1 ≤ s + w + 1
        → held ops s1 w1 ≡ some p
        → run ops (counter_of s1 w1) ≡ ok end)
    → elim o as (λ x. Option (ℕ × ℕ)) [ none ↦ none | some q ↦ held ops (q.0) (q.1) ] ≡ some p
    → (apply op (counter_of s w) >>= run ops) ≡ ok end
run-step op ops s w none end p f next h = cc
run-step op ops s w (some q) end p (steps s1 w1 e le) next h = rw e (next s1 w1 le h)

run-held :
    (ops : List Op) (s w s' w' : ℕ)
    → s + w + length ops < word
    → held ops s w ≡ some (s', w')
    → run ops (counter_of s w) ≡ ok (counter_of s' w')
unfolding run held
run-held [] s w s' w' small h = cc
run-held (op ∷ ops) s w s' w' small h =
    run-step op ops s w (held_step op s w) (counter_of s' w') (s', w')
      (step op s w (omega (arith, small)))
      (λ s1 w1 le e. run-held ops s1 w1 s' w' (omega (arith, small, le)) e) h

-- Within fewer operations than fit in a 64-bit count, and where the function that frees the object uses
-- none of its references: holders that only give back references which they have, and only ask for a further reference while
-- one of either kind is held, run no operation into a fault, and end with the counter of the
-- references they hold: the object is there while a strong one is, its `free_fn` has been called
-- exactly once when none is left, and the counter is freed exactly with the last reference.
pub run-counter_of :
    (ops : List Op) (s w : ℕ)
    → length ops + 1 < word
    → held ops 1 0 ≡ some (s, w)
    → run ops create ≡ ok (counter_of s w)
unfolding create counter_of
run-counter_of ops s w small h = run-held ops 1 0 s w (omega (arith, small)) h
