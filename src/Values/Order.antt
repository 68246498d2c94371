-- ===== src/Values/Order.antt =====
-- Comparisons of integers, equality of values, and the addition of strings.
use snuk.Prelude.{
  ℕ, zero, suc, ◌-◌, ◌≤◌, ◌<◌, ◌≡◌, ◌↔◌, refl, sym, ap, ◌∙◌, Bool, true, false, not, ◌&&◌, Outcome,
  ok, List, [], ◌∷◌, ◌++◌, take, drop, length, arith, ◌==◌, if◌then◌else◌, ℤ, pos, negsuc, eqb_ℤ,
  ltb_ℤ, Bool-cases, ==_iff, inl, inr,
}
use snuk.Text.{StringView, concat, content, Fits, string_n_equal}
use snuk.Text.Equal.{string_n_equal_iff, length-take_le}
use snuk.Text.Concat.{content-concat}
use snuk.Lexer.Token
use snuk.Values
use snuk.Values.{SnukValue, Floats}
use snuk.Values.Operators.{less_one, binary_op, int_op, float_op, string_op, equality, same_value}

le_int : (a b : ℤ) → not (ltb_ℤ b a) ≡ (if ltb_ℤ a b then true else eqb_ℤ a b)
le_int (pos a) (pos b) = ground arith
le_int (pos a) (negsuc b) = ground arith
le_int (negsuc a) (pos b) = ground arith
le_int (negsuc a) (negsuc b) = ground arith

eqb_ℤ_comm : (a b : ℤ) → eqb_ℤ b a ≡ eqb_ℤ a b
eqb_ℤ_comm a b = ground arith

eqb_ℤ_iff : (a b : ℤ) → (eqb_ℤ a b ≡ true) ↔ (a ≡ b)
eqb_ℤ_iff (pos a) (pos b) = ground arith
eqb_ℤ_iff (pos a) (negsuc b) = ground arith
eqb_ℤ_iff (negsuc a) (pos b) = ground arith
eqb_ℤ_iff (negsuc a) (negsuc b) = ground arith

ltb_ℤ_excl : (a b : ℤ) → (ltb_ℤ a b && ltb_ℤ b a) ≡ false
ltb_ℤ_excl a b = ground arith

same_bytes :
    (v w : StringView)
    → Fits v
    → Fits w
    → ((v.len == w.len && string_n_equal v.str w.str v.len) ≡ true) ↔ (content v ≡ content w)
same_bytes v w p q = elim (Bool-cases (v.len == w.len)) [
  | inl same ↦
      let e : v.len ≡ w.len = (==_iff _ _).0 same in
      rw same (
        (λ h. ((string_n_equal_iff v.str w.str v.len).0 h).2 ∙ ap (λ n. take n w.str) e),
        λ h.
            (string_n_equal_iff v.str w.str v.len).1
              (p, omega (arith, q, e), h ∙ ap (λ n. take n w.str) (sym e)),
      )
  | inr other ↦ ground (
    arith,
    length-take_le v.len v.str p,
    length-take_le w.len w.str q,
    ap {A = List ℕ} length {x = content v} {y = content w},
  )
]

unquoted : (n : ℕ) (s : List ℕ) → 0 < n → n ≤ length s → take (n - 1) (drop 1 s) ≡ drop 1 (take n s)
unquoted zero s lt le = absurd (omega arith)
unquoted (suc n) [] lt le = absurd (omega arith)
unquoted (suc n) (x ∷ s) lt le = ap (λ n. take n s) (omega arith)

length-drop_one : (s : List ℕ) → length (drop 1 s) ≡ length s - 1
length-drop_one [] = omega arith
length-drop_one (x ∷ s) = omega arith

less_one-pos : (n : ℕ) → 0 < n → less_one n ≡ n - 1
unfolding less_one
less_one-pos n lt = ground arith

module _ {F H : Type 0} (fl : Floats F) where
  -- The answers of the six comparisons.
  abbrev pub answer : ℤ → ℤ → Token.TokenType → Outcome (SnukValue F H)
  answer a b op = binary_op fl (Values.int a) (Values.int b) op

  -- Of two integers the comparisons say the same as each other: `>=` is the converse of `<=`, and
  -- `a <= b` holds exactly when `a < b` or `a == b` does.
  pub int_order :
      (a b : ℤ)
      → (lt gt eq : Bool) × (answer a b Token.less ≡ ok (Values.bool lt))
        × (answer a b Token.greater ≡ ok (Values.bool gt))
        × (answer a b Token.equal ≡ ok (Values.bool eq))
        × (answer a b Token.bang_equal ≡ ok (Values.bool (not eq)))
        × (answer a b Token.less_equal ≡ ok (Values.bool (if lt then true else eq)))
        × (answer a b Token.greater_equal ≡ ok (Values.bool (if gt then true else eq)))
        × ((eq ≡ true) ↔ (a ≡ b))
        × ((lt && gt) ≡ false)
  unfolding binary_op int_op equality same_value
  int_order a b = (
    ltb_ℤ a b,
    ltb_ℤ b a,
    eqb_ℤ a b,
    refl,
    refl,
    refl,
    refl,
    ap (λ b. ok (Values.bool b)) (le_int a b),
    ap (λ b. ok (Values.bool b))
        (le_int b a ∙ ap (λ c. if ltb_ℤ b a then true else c) (eqb_ℤ_comm a b)),
    eqb_ℤ_iff a b,
    ltb_ℤ_excl a b,
  )

  the_bool :
      {b c : Bool}
      → ◌≡◌ {A = Outcome (SnukValue F H)} (ok (Values.bool b)) (ok (Values.bool c))
      → b ≡ c
  the_bool h = cc

  -- Strings are equal as values exactly when their literals have the same bytes.
  pub string_equal-content :
      (v w : StringView)
      → Fits v
      → Fits w
      → (binary_op {H = H} fl (Values.string v) (Values.string w) Token.equal
          ≡ ok (Values.bool true))
        ↔ (content v ≡ content w)
  unfolding binary_op string_op equality same_value
  string_equal-content v w p q = (
    (λ h. (same_bytes v w p q).0 (the_bool h)),
    λ h. ap (λ b. ok (Values.bool b)) ((same_bytes v w p q).1 h),
  )

  -- Adding two literals that have their quotes gives the bytes of both without the quotes between
  -- them.
  pub string_plus-content :
      (v w : StringView)
      → Fits v
      → Fits w
      → 1 < v.len
      → 1 < w.len
      → (sum : StringView) × (binary_op {H = H} fl (Values.string v) (Values.string w) Token.plus
          ≡ ok (Values.string sum))
        × (content sum ≡ take (v.len - 1) v.str ++ drop 1 (content w))
  unfolding binary_op string_op
  string_plus-content v w p q nv nw = (
    concat (record { str = v.str; len = v.len - 1 })
        (record { str = drop 1 w.str; len = w.len - 1 }),
    rw (less_one-pos v.len (omega (arith, nv)), less_one-pos w.len (omega (arith, nw))) refl,
    content-concat (record { str = v.str; len = v.len - 1 })
          (record { str = drop 1 w.str; len = w.len - 1 }) (omega (arith, p))
          (omega (arith, q, length-drop_one w.str)) (omega (arith, nv)) (omega (arith, nw))
        ∙ ap (λ s. take (v.len - 1) v.str ++ s) (unquoted w.len w.str (omega (arith, nw)) q),
  )

  abbrev pub float_answer : F → F → Token.TokenType → Outcome (SnukValue F H)
  float_answer x y op = binary_op fl (Values.float x) (Values.float y) op

  -- Floats of which none is below the other and which are not equal, as with a NaN, are still said
  -- to be `>=` and `<=`, but neither `>`, `<` nor `==`.
  pub float_unordered :
      (x y : F)
      → fl.flt x y ≡ false
      → fl.flt y x ≡ false
      → fl.feq x y ≡ false
      → (float_answer x y Token.greater_equal ≡ ok (Values.bool true))
        × (float_answer x y Token.less_equal ≡ ok (Values.bool true))
        × (float_answer x y Token.greater ≡ ok (Values.bool false))
        × (float_answer x y Token.less ≡ ok (Values.bool false))
        × (float_answer x y Token.equal ≡ ok (Values.bool false))
  unfolding binary_op float_op equality same_value
  float_unordered x y h k e = rw (h, k, e) (refl, refl, refl, refl, refl)
