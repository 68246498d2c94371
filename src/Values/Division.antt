-- ===== src/Values/Division.antt =====
-- Division and remainder of integers.
use snuk.Prelude.{
  ℕ, suc, ◌+◌, ◌*◌, ◌/◌, ◌%◌, ◌<◌, ◌≡◌, refl, sym, ap, ap₂, ◌∙◌, true, false, ok, arith, ℤ, pos,
  negsuc, pos_part, neg_part, sub_ℕ, add_ℤ, mul_ℤ, div_ℤ, rem_ℤ, eqb_ℤ, in_int64,
}
use snuk.Lexer.Token
use snuk.Values
use snuk.Values.{SnukValue, Floats}
use snuk.Values.Operators.{binary_op, int_op, checked}
use snuk.Values.Order.{answer}

abbrev negative : ℕ → ℤ
negative x = sub_ℕ 0 x

negative_form : (x : ℕ) → negative (suc x) ≡ negsuc x
negative_form x = ground arith

mul_pos_pos : (x k : ℕ) → mul_ℤ (pos x) (pos k) ≡ pos (x * k)
mul_pos_pos x k = ground arith

mul_negative_second : (x k : ℕ) → mul_ℤ (pos x) (negsuc k) ≡ negative (x * suc k)
mul_negative_second x k = ap₂ sub_ℕ (omega arith) (omega arith)

sub_parts : (x : ℕ) → (pos_part (negative x) ≡ 0) × (neg_part (negative x) ≡ x)
sub_parts x = ground arith

mul_negative_first : (x k : ℕ) → mul_ℤ (negative x) (pos k) ≡ negative (x * k)
mul_negative_first x k =
    rw ((sub_parts x).0, (sub_parts x).1) (ap₂ sub_ℕ (omega arith) (omega arith))

mul_negatives : (x k : ℕ) → mul_ℤ (negative x) (negsuc k) ≡ pos (x * suc k)
mul_negatives x k =
    rw ((sub_parts x).0, (sub_parts x).1)
      (ap₂ sub_ℕ (omega arith) (omega arith) ∙ from_zero (x * suc k))
  where
    from_zero : (n : ℕ) → sub_ℕ n 0 ≡ pos n
    from_zero n = ground arith

add_negatives : (x y : ℕ) → add_ℤ (negative x) (negative y) ≡ negative (x + y)
add_negatives x y = rw ((sub_parts x).0, (sub_parts x).1, (sub_parts y).0, (sub_parts y).1) refl

add_pos : (x y : ℕ) → add_ℤ (pos x) (pos y) ≡ pos (x + y)
add_pos x y = ground arith

-- The four cases of the signs.
record Divided (a b q r : ℤ) : Type 0 where
  whole : a ≡ add_ℤ (mul_ℤ q b) r
  less : pos_part r + neg_part r < pos_part b + neg_part b

sub_zero : (n : ℕ) → sub_ℕ n 0 ≡ pos n
sub_zero n = ground arith

divided : (a b : ℤ) → 0 < pos_part b + neg_part b → Divided a b (div_ℤ a b) (rem_ℤ a b)
divided (pos m) (pos k) lt =
    rw (q, r)
      record {
        whole = sym (
            ap (λ s. add_ℤ s (pos (m % k))) (mul_pos_pos (m / k) k)
            ∙ add_pos (m / k * k) (m % k)
            ∙ ap pos (omega (arith, lt)));
        less = omega (arith, lt);
      }
  where
    q : div_ℤ (pos m) (pos k) ≡ pos (m / k)
    q = ap₂ sub_ℕ (omega arith) (omega arith) ∙ sub_zero (m / k)

    r : rem_ℤ (pos m) (pos k) ≡ pos (m % k)
    r = ap₂ sub_ℕ (ap (λ n. m % n) (omega arith)) (omega arith) ∙ sub_zero (m % k)
divided (pos m) (negsuc k) lt =
    rw (q, r)
      record {
        whole = sym (
            ap (λ s. add_ℤ s (pos (m % suc k))) (mul_negatives (m / suc k) k)
            ∙ add_pos (m / suc k * suc k) (m % suc k)
            ∙ ap pos (omega arith));
        less = omega arith;
      }
  where
    q : div_ℤ (pos m) (negsuc k) ≡ negative (m / suc k)
    q = ap₂ sub_ℕ (omega arith) (omega arith)

    r : rem_ℤ (pos m) (negsuc k) ≡ pos (m % suc k)
    r = ap₂ sub_ℕ (ap (λ n. m % n) (omega arith)) (omega arith) ∙ sub_zero (m % suc k)
divided (negsuc m) (pos k) lt =
    rw (q, r)
      record {
        whole = sym (
            ap (λ s. add_ℤ s (negative (suc m % k))) (mul_negative_first (suc m / k) k)
            ∙ add_negatives (suc m / k * k) (suc m % k)
            ∙ ap negative total
            ∙ negative_form m);
        less = rw ((sub_parts (suc m % k)).0, (sub_parts (suc m % k)).1) (omega (arith, lt));
      }
  where
    total : suc m / k * k + suc m % k ≡ suc m
    total = omega (arith, lt)

    q : div_ℤ (negsuc m) (pos k) ≡ negative (suc m / k)
    q = ap₂ sub_ℕ (omega arith) (omega arith)

    r : rem_ℤ (negsuc m) (pos k) ≡ negative (suc m % k)
    r = ap₂ sub_ℕ (omega arith) (ap (λ n. suc m % n) (omega arith))
divided (negsuc m) (negsuc k) lt =
    rw (q, r)
      record {
        whole = sym (
            ap (λ s. add_ℤ s (negative (suc m % suc k))) (mul_negative_second (suc m / suc k) k)
            ∙ add_negatives (suc m / suc k * suc k) (suc m % suc k)
            ∙ ap negative total
            ∙ negative_form m);
        less = rw ((sub_parts (suc m % suc k)).0, (sub_parts (suc m % suc k)).1) (omega arith);
      }
  where
    total : suc m / suc k * suc k + suc m % suc k ≡ suc m
    total = omega arith

    q : div_ℤ (negsuc m) (negsuc k) ≡ pos (suc m / suc k)
    q = ap₂ sub_ℕ (omega arith) (omega arith) ∙ sub_zero (suc m / suc k)

    r : rem_ℤ (negsuc m) (negsuc k) ≡ negative (suc m % suc k)
    r = ap₂ sub_ℕ (omega arith) (ap (λ n. suc m % n) (omega arith))

divisor : (b : ℤ) → eqb_ℤ b (pos 0) ≡ false → 0 < pos_part b + neg_part b
divisor (pos b) h = ground arith
divisor (negsuc b) h = omega arith

module _ {F H : Type 0} (fl : Floats F) where
  -- Dividing by an integer that is not 0, where the quotient is a 64-bit integer, gives a quotient and
  -- with `%` a remainder that make up the dividend, the remainder being less than the divisor in size.
  pub int_division :
      (a b : ℤ)
      → eqb_ℤ b (pos 0) ≡ false
      → in_int64 (div_ℤ a b) ≡ true
      → (q r : ℤ) × (answer {H = H} fl a b Token.slash ≡ ok (Values.int q))
        × (answer {H = H} fl a b Token.percent ≡ ok (Values.int r))
        × (a ≡ add_ℤ (mul_ℤ q b) r)
        × (pos_part r + neg_part r < pos_part b + neg_part b)
  unfolding binary_op int_op checked
  int_division a b nonzero fits =
      (div_ℤ a b, rem_ℤ a b, rw (nonzero, fits) refl, rw (nonzero, fits) refl, d.whole, d.less)
    where
      d : Divided a b (div_ℤ a b) (rem_ℤ a b)
      d = divided a b (divisor b nonzero)
