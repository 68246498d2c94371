-- ===== src/Values/Unary.antt =====
-- The unary operators, applied twice.
use snuk.Prelude.{
  ◌≡◌, refl, ap, Bool, true, false, not, ok, ◌>>=◌, ℤ, pos, negsuc, neg_ℤ, in_int64, arith,
}
use snuk.Lexer.Token
use snuk.Values
use snuk.Values.{SnukValue, Floats, is_true}
use snuk.Values.Operators.{unary_op, unary_tilde, unary_minus, checked}

not_twice : (b : Bool) → not (not b) ≡ b
not_twice true = refl
not_twice false = refl

neg_ℤ_twice : (a : ℤ) → neg_ℤ (neg_ℤ a) ≡ a
neg_ℤ_twice (pos a) = ground arith
neg_ℤ_twice (negsuc a) = ground arith

module _ {F H : Type 0} (fl : Floats F) where
  tilde_twice : (v : SnukValue F H) → unary_tilde fl (unary_tilde fl v) ≡ v
  unfolding unary_tilde
  tilde_twice (Values.int (pos a)) = refl
  tilde_twice (Values.int (negsuc a)) = refl
  tilde_twice _ = refl

  -- The negation of the negation of a value is its truth, with `!` and with `not`, and the complement
  -- of the complement of a value is the value.
  pub unary_twice :
      (v : SnukValue F H)
      → ((unary_op fl Token.bang v >>= unary_op fl Token.bang) ≡ ok (Values.bool (is_true fl v)))
        × ((unary_op fl Token.kw_not v >>= unary_op fl Token.bang)
            ≡ ok (Values.bool (is_true fl v)))
        × ((unary_op fl Token.tilde v >>= unary_op fl Token.tilde) ≡ ok v)
  unfolding unary_op is_true
  unary_twice v = (
    ap (λ b. ok (Values.bool b)) (not_twice (is_true fl v)),
    ap (λ b. ok (Values.bool b)) (not_twice (is_true fl v)),
    ap ok (tilde_twice v),
  )

  -- The negative of an integer, where it is a 64-bit integer, has the integer for its own negative.
  pub minus_twice :
      (a : ℤ)
      → in_int64 a ≡ true
      → in_int64 (neg_ℤ a) ≡ true
      → (unary_op {H = H} fl Token.minus (Values.int a) >>= unary_op fl Token.minus)
        ≡ ok (Values.int a)
  unfolding unary_op unary_minus checked
  minus_twice a fits neg_fits = rw (neg_fits, neg_ℤ_twice a, fits) refl
