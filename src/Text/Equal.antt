-- ===== src/Text/Equal.antt =====
-- Comparison of strings and views, against the bytes that they show.
use snuk.Prelude.{
  ℕ, zero, suc, ◌+◌, ◌≤◌, ◌≡◌, refl, sym, ap, ◌∙◌, ◌↔◌, Bool, true, false, if◌then◌else◌, List, [],
  ◌∷◌, length, take, arith, ◌==◌, ==_iff, Bool-cases, Bool_ext, inl, inr,
}
use snuk.Text.{
  StringView, content, Fits, string_equal, string_n_equal, n_equal_loop, memcmp_equal, equal,
  string_length, create, equal_cstr, lower_equal, equal_cstr_ignore_case, string_equal_ignore_case,
}

pub string_equal_iff : (a b : List ℕ) → (string_equal a b ≡ true) ↔ (a ≡ b)
unfolding string_equal
string_equal_iff (x ∷ a) (y ∷ b) = ground (arith, string_equal_iff a b)
string_equal_iff [] [] = ground arith
string_equal_iff _ _ = ground arith

memcmp_equal_iff :
    (n : ℕ) (a b : List ℕ)
    → n ≤ length a
    → n ≤ length b
    → (memcmp_equal a b n ≡ true) ↔ (take n a ≡ take n b)
unfolding memcmp_equal
memcmp_equal_iff zero a b p q = ground arith
memcmp_equal_iff (suc n) [] b p q = absurd (omega arith)
memcmp_equal_iff (suc n) (x ∷ a) [] p q = absurd (omega arith)
memcmp_equal_iff (suc n) (x ∷ a) (y ∷ b) p q =
    ground (arith, memcmp_equal_iff n a b (omega arith) (omega arith))

pub length-take_le : (n : ℕ) (a : List ℕ) → n ≤ length a → length (take n a) ≡ n
length-take_le zero a h = refl
length-take_le (suc n) [] h = absurd (omega arith)
length-take_le (suc n) (x ∷ a) h = ap suc (length-take_le n a (omega arith))

-- Two views that end inside their strings compare equal exactly when they show the same bytes.
pub equal_iff : (v w : StringView) → Fits v → Fits w → (equal v w ≡ true) ↔ (content v ≡ content w)
unfolding equal
equal_iff v w p q = elim (Bool-cases (v.len == w.len)) [
  | inl same ↦
      let e : v.len ≡ w.len = (==_iff _ _).0 same in
      ground (arith, memcmp_equal_iff v.len v.str w.str p (omega arith), e)
  | inr different ↦ ground (
    arith,
    length-take_le v.len v.str p,
    length-take_le w.len w.str q,
    ap {A = List ℕ} length {x = content v} {y = content w},
  )
]

n_equal_loop_iff :
    (a b : List ℕ) (n i : ℕ)
    → (n_equal_loop a b n i ≡ i + n) ↔ ((n ≤ length a) × (n ≤ length b) × (take n a ≡ take n b))
unfolding n_equal_loop
n_equal_loop_iff [] b zero i = ground arith
n_equal_loop_iff [] b (suc n) i = ground arith
n_equal_loop_iff (x ∷ a) [] zero i = ground arith
n_equal_loop_iff (x ∷ a) [] (suc n) i = ground arith
n_equal_loop_iff (x ∷ a) (y ∷ b) zero i = ground arith
n_equal_loop_iff (x ∷ a) (y ∷ b) (suc n) i = ground (arith, n_equal_loop_iff a b n (i + 1))

-- `snuk_string_n_equal` holds exactly when both strings have `n` characters at least and agree
-- on the first `n`.
pub string_n_equal_iff :
    (a b : List ℕ) (n : ℕ)
    → (string_n_equal a b n ≡ true) ↔ ((n ≤ length a) × (n ≤ length b) × (take n a ≡ take n b))
unfolding string_n_equal
string_n_equal_iff a b n = ground (arith, n_equal_loop_iff a b n 0)

pub string_length-length : (s : List ℕ) → string_length s ≡ length s
unfolding string_length
string_length-length [] = refl
string_length-length (c ∷ s) = ap suc (string_length-length s)

pub content-create : (s : List ℕ) → content (create s) ≡ s
unfolding create
content-create [] = refl
content-create (c ∷ s) = ap (◌∷◌ c) (content-create s)

pub create-Fits : (s : List ℕ) → Fits (create s)
unfolding create
create-Fits s = omega (arith, string_length-length s)

-- A view compares equal to a literal exactly when it shows the literal's characters.
pub equal_cstr_iff :
    (v : StringView) (s : List ℕ) → Fits v → (equal_cstr v s ≡ true) ↔ (content v ≡ s)
unfolding equal_cstr
equal_cstr_iff v s p = rw (content-create s) at (equal_iff v (create s) p (create-Fits s))

lower_equal-string_equal :
    (n : ℕ) (a b : List ℕ)
    → n ≤ length a
    → length b ≡ n
    → lower_equal a b n ≡ string_equal_ignore_case (take n a) b
unfolding lower_equal string_equal_ignore_case
lower_equal-string_equal zero a [] p q = refl
lower_equal-string_equal zero a (y ∷ b) p q = absurd (omega arith)
lower_equal-string_equal (suc n) [] b p q = absurd (omega arith)
lower_equal-string_equal (suc n) (x ∷ a) [] p q = absurd (omega arith)
lower_equal-string_equal (suc n) (x ∷ a) (y ∷ b) p q =
    ground (arith, lower_equal-string_equal n a b (omega arith) (omega arith))

string_equal_ignore_case-length :
    (a b : List ℕ) → string_equal_ignore_case a b ≡ true → length a ≡ length b
unfolding string_equal_ignore_case
string_equal_ignore_case-length [] [] h = refl
string_equal_ignore_case-length (x ∷ a) (y ∷ b) h =
    ground (arith, string_equal_ignore_case-length a b)
string_equal_ignore_case-length _ _ h = ground arith

not_true : (b : Bool) → (b ≡ true → ⊥) → b ≡ false
not_true true h = absurd (h refl)
not_true false h = refl

at_zero : (n : ℕ) (a b : List ℕ) → (if n == 0 then true else lower_equal a b n) ≡ lower_equal a b n
unfolding lower_equal
at_zero zero a b = refl
at_zero (suc n) a b = ground arith

-- Comparing a view with a literal is comparing the characters that it shows, without regard to case.
pub equal_cstr_ignore_case_lem :
    (v : StringView) (s : List ℕ)
    → Fits v
    → equal_cstr_ignore_case v s ≡ string_equal_ignore_case (content v) s
unfolding equal_cstr_ignore_case
equal_cstr_ignore_case_lem v s p = elim (Bool-cases (v.len == string_length s)) [
  | inl same ↦
      let e : v.len ≡ length s = (==_iff _ _).0 same ∙ string_length-length s in
      rw same (at_zero v.len v.str s ∙ lower_equal-string_equal v.len v.str s p (sym e))
  | inr different ↦ rw different (
      sym (
        not_true _ λ equal_too. ground (
          arith,
          string_equal_ignore_case-length (content v) s equal_too,
          length-take_le v.len v.str p,
          string_length-length s,
        )))
]

pub equal_cstr_lem :
    (v : StringView) (s : List ℕ) → Fits v → equal_cstr v s ≡ string_equal (content v) s
equal_cstr_lem v s p = Bool_ext (equal_cstr_iff v s p) (string_equal_iff (content v) s)
