-- ===== src/Values/Tests.antt =====
-- The theorems about operators at concrete values.
use snuk.Prelude.{
  ℤ, add_ℤ, mul_ℤ, pos_part, neg_part, ◌+◌, ◌<◌, ℕ, ◌-◌, ◌≡◌, ◌↔◌, refl, Bool, true, false, not,
  ◌&&◌, ok, ◌++◌, take, drop, codes, arith, if◌then◌else◌, pos, negsuc, trap, wild,
}
use snuk.Text.{StringView, content, create}
use snuk.Text.Equal.{create-Fits}
use snuk.Lexer.Token
use snuk.Values
use snuk.Values.{Floats, is_true}
use snuk.Values.Operators.{binary_op, int_op, checked}
use snuk.Values.Division.{int_division}
use snuk.Values.Order.{
  answer, float_answer, int_order, string_equal-content, string_plus-content, float_unordered,
}

-- Floats of one value only, which is not equal to itself.
abbrev nans : Floats ℕ
nans = record {
  fneg = λ x. x;
  fadd = λ x y. x;
  fsub = λ x y. x;
  fmul = λ x y. x;
  fdiv = λ x y. x;
  flt = λ x y. false;
  feq = λ x y. false;
  fzero = 0;
}

seven_by_two : answer {H = ℕ} nans (negsuc 6) (pos 2) Token.slash ≡ ok (Values.int (negsuc 2))
unfolding binary_op int_op checked
seven_by_two = refl

by_zero : answer {H = ℕ} nans (pos 7) (pos 0) Token.percent ≡ trap wild
unfolding binary_op int_op checked
by_zero = refl

bits : answer {H = ℕ} nans (negsuc 0) (pos 12) Token.amp ≡ ok (Values.int (pos 12))
unfolding binary_op int_op checked
bits = refl

int_order_example :
    (lt gt eq : Bool) × (answer {H = ℕ} nans (negsuc 3) (pos 2) Token.less ≡ ok (Values.bool lt))
    × (answer {H = ℕ} nans (negsuc 3) (pos 2) Token.greater ≡ ok (Values.bool gt))
    × (answer {H = ℕ} nans (negsuc 3) (pos 2) Token.equal ≡ ok (Values.bool eq))
    × (answer {H = ℕ} nans (negsuc 3) (pos 2) Token.bang_equal ≡ ok (Values.bool (not eq)))
    × (answer {H = ℕ} nans (negsuc 3) (pos 2) Token.less_equal
        ≡ ok (Values.bool (if lt then true else eq)))
    × (answer {H = ℕ} nans (negsuc 3) (pos 2) Token.greater_equal
        ≡ ok (Values.bool (if gt then true else eq)))
    × ((eq ≡ true) ↔ (negsuc 3 ≡ pos 2))
    × ((lt && gt) ≡ false)
int_order_example = int_order {H = ℕ} nans (negsuc 3) (pos 2)

abbrev ab_literal : StringView
ab_literal = create (codes "'ab'")

string_equal-content_example :
    (binary_op {H = ℕ} nans (Values.string ab_literal) (Values.string ab_literal) Token.equal
      ≡ ok (Values.bool true))
    ↔ (content ab_literal ≡ content ab_literal)
string_equal-content_example =
    string_equal-content {H = ℕ} nans ab_literal ab_literal (create-Fits (codes "'ab'"))
      (create-Fits (codes "'ab'"))

abbrev c_literal : StringView
c_literal = record { str = codes "'c'"; len = 3 }

string_plus-content_example :
    (sum : StringView) × (binary_op {H = ℕ} nans
        (Values.string c_literal)
        (Values.string c_literal)
        Token.plus
      ≡ ok (Values.string sum))
    × (content sum ≡ take (3 - 1) (codes "'c'") ++ drop 1 (content c_literal))
string_plus-content_example =
    string_plus-content {H = ℕ} nans c_literal c_literal (omega arith) (omega arith) (omega arith)
      (omega arith)

float_unordered_example :
    (float_answer {H = ℕ} nans 1 2 Token.greater_equal ≡ ok (Values.bool true))
    × (float_answer {H = ℕ} nans 1 2 Token.less_equal ≡ ok (Values.bool true))
    × (float_answer {H = ℕ} nans 1 2 Token.greater ≡ ok (Values.bool false))
    × (float_answer {H = ℕ} nans 1 2 Token.less ≡ ok (Values.bool false))
    × (float_answer {H = ℕ} nans 1 2 Token.equal ≡ ok (Values.bool false))
float_unordered_example = float_unordered {H = ℕ} nans 1 2 refl refl refl

int_division_example :
    (q r : ℤ) × (answer {H = ℕ} nans (negsuc 6) (pos 2) Token.slash ≡ ok (Values.int q))
    × (answer {H = ℕ} nans (negsuc 6) (pos 2) Token.percent ≡ ok (Values.int r))
    × (negsuc 6 ≡ add_ℤ (mul_ℤ q (pos 2)) r)
    × (pos_part r + neg_part r < 2 + 0)
int_division_example = int_division {H = ℕ} nans (negsuc 6) (pos 2) refl refl
