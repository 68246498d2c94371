-- ===== src/Values/Operators.antt =====
-- src/interpreter/interpreter.c: `execute_unary_op` behind the evaluation of its operand, and
-- `perform_binary_op`. Overflow of an `int64_t`, a division by zero and a shift by a count that is
-- not below 64 are undefined in C, and the fault `wild` here.
use snuk.Prelude.{
  ℕ, ◌+◌, ◌-◌, ◌*◌, ◌/◌, ◌%◌, ◌^◌, Bool, true, false, not, ◌&&◌, ◌||◌, Outcome, ok, trap, ◌>>=◌,
  wild, should_not_reach, ◌==◌, ltb, if◌then◌else◌, ℤ, pos, negsuc, pos_part, neg_part, neg_ℤ,
  add_ℤ, mul_ℤ, div_ℤ, rem_ℤ, ltb_ℤ, eqb_ℤ, in_int64, to_word, of_word, bitwise, drop,
}
use snuk.Text.{StringView, string_n_equal, concat}
use snuk.Lexer.Token
use snuk.Lexer.Token.{TokenType}
use snuk.Values
use snuk.Values.{SnukValue, Floats, is_true}

-- The result of 64-bit arithmetic.
unfoldable pub checked : {F H : Type 0} → ℤ → Outcome (SnukValue F H)
checked a = if in_int64 a then ok (Values.int a) else trap wild

abbrev or_bit : ℕ → ℕ → ℕ
or_bit a b = if a + b == 0 then 0 else 1

abbrev xor_bit : ℕ → ℕ → ℕ
xor_bit a b = (a + b) % 2

abbrev and_bit : ℕ → ℕ → ℕ
and_bit a b = a * b

abbrev pub on_words : (ℕ → ℕ → ℕ) → ℤ → ℤ → ℤ
on_words f a b = of_word (bitwise 64 f (to_word a) (to_word b))

-- A shift to the left of a negative number is undefined, one to the right rounds down.
unfoldable pub shift_left : ℤ → ℕ → Outcome ℤ
shift_left (pos a) n = if in_int64 (pos (a * 2 ^ n)) then ok (pos (a * 2 ^ n)) else trap wild
shift_left (negsuc a) n = trap wild

unfoldable pub shift_right : ℤ → ℕ → ℤ
shift_right (pos a) n = pos (a / 2 ^ n)
shift_right (negsuc a) n = negsuc (a / 2 ^ n)

abbrev pub is_count : ℤ → Bool
is_count b = neg_part b == 0 && ltb (pos_part b) 64

-- `len--` on a 64-bit length.
unfoldable pub less_one : ℕ → ℕ
less_one n = if n == 0 then 18446744073709551615 else n - 1

module _ {F H : Type 0} (fl : Floats F) where
  unfoldable pub unary_minus : SnukValue F H → Outcome (SnukValue F H)
  unary_minus (Values.int a) = checked (neg_ℤ a)
  unary_minus (Values.float x) = ok (Values.float (fl.fneg x))
  unary_minus v = ok v

  unfoldable pub unary_tilde : SnukValue F H → SnukValue F H
  unary_tilde (Values.int (pos a)) = Values.int (negsuc a)
  unary_tilde (Values.int (negsuc a)) = Values.int (pos a)
  unary_tilde v = v

  unfoldable pub unary_op : TokenType → SnukValue F H → Outcome (SnukValue F H)
  unary_op Token.plus v = ok v
  unary_op Token.minus v = unary_minus v
  unary_op Token.bang v = ok (Values.bool (not (is_true fl v)))
  unary_op Token.kw_not v = ok (Values.bool (not (is_true fl v)))
  unary_op Token.tilde v = ok (unary_tilde v)
  unary_op _ v = ok Values.unknown

  -- The comparison of two values with the same tag.
  unfoldable pub same_value : SnukValue F H → SnukValue F H → Outcome Bool
  same_value Values.unknown _ = ok false
  same_value Values.null _ = ok true
  same_value (Values.int a) (Values.int b) = ok (eqb_ℤ a b)
  same_value (Values.float x) (Values.float y) = ok (fl.feq x y)
  same_value (Values.bool true) (Values.bool b) = ok b
  same_value (Values.bool false) (Values.bool b) = ok (not b)
  same_value (Values.string v) (Values.string w) =
      ok (v.len == w.len && string_n_equal v.str w.str v.len)
  same_value (Values.fn _) _ = ok false
  same_value (Values.type _) _ = ok false
  same_value _ _ = trap should_not_reach

  -- The last switch of `perform_binary_op`, without the addition of strings.
  unfoldable pub equality : SnukValue F H → SnukValue F H → TokenType → Outcome (SnukValue F H)
  equality l r Token.equal = same_value l r >>= λ b. ok (Values.bool b)
  equality l r Token.bang_equal = same_value l r >>= λ b. ok (Values.bool (not b))
  equality l r _ = ok Values.unknown

  unfoldable pub int_op : ℤ → ℤ → TokenType → Outcome (SnukValue F H)
  int_op a b Token.plus = checked (add_ℤ a b)
  int_op a b Token.minus = checked (add_ℤ a (neg_ℤ b))
  int_op a b Token.star = checked (mul_ℤ a b)
  int_op a b Token.slash = if eqb_ℤ b (pos 0) then trap wild else checked (div_ℤ a b)
  int_op a b Token.percent =
      if eqb_ℤ b (pos 0) || not (in_int64 (div_ℤ a b))
      then trap wild
      else ok (Values.int (rem_ℤ a b))
  int_op a b Token.less = ok (Values.bool (ltb_ℤ a b))
  int_op a b Token.greater_equal = ok (Values.bool (not (ltb_ℤ a b)))
  int_op a b Token.greater = ok (Values.bool (ltb_ℤ b a))
  int_op a b Token.less_equal = ok (Values.bool (not (ltb_ℤ b a)))
  int_op a b Token.pipe = ok (Values.int (on_words or_bit a b))
  int_op a b Token.caret = ok (Values.int (on_words xor_bit a b))
  int_op a b Token.amp = ok (Values.int (on_words and_bit a b))
  int_op a b Token.lshift =
      if is_count b then (shift_left a (pos_part b) >>= λ c. ok (Values.int c)) else trap wild
  int_op a b Token.rshift =
      if is_count b then ok (Values.int (shift_right a (pos_part b))) else trap wild
  int_op a b op = equality (Values.int a) (Values.int b) op

  unfoldable pub float_op : F → F → TokenType → Outcome (SnukValue F H)
  float_op x y Token.plus = ok (Values.float (fl.fadd x y))
  float_op x y Token.minus = ok (Values.float (fl.fsub x y))
  float_op x y Token.star = ok (Values.float (fl.fmul x y))
  float_op x y Token.slash = ok (Values.float (fl.fdiv x y))
  float_op x y Token.less = ok (Values.bool (fl.flt x y))
  float_op x y Token.greater_equal = ok (Values.bool (not (fl.flt x y)))
  float_op x y Token.greater = ok (Values.bool (fl.flt y x))
  float_op x y Token.less_equal = ok (Values.bool (not (fl.flt y x)))
  float_op x y op = equality (Values.float x) (Values.float y) op

  -- The quotes between the two strings are left out.
  unfoldable pub string_op : StringView → StringView → TokenType → Outcome (SnukValue F H)
  unfolding less_one
  string_op v w Token.plus = ok (
      Values.string (
        concat (record { str = v.str; len = less_one v.len })
          (record { str = drop 1 w.str; len = less_one w.len })))
  string_op v w op = equality (Values.string v) (Values.string w) op

  unfoldable pub binary_op : SnukValue F H → SnukValue F H → TokenType → Outcome (SnukValue F H)
  binary_op (Values.int a) (Values.int b) op = int_op a b op
  binary_op (Values.float x) (Values.float y) op = float_op x y op
  binary_op (Values.string v) (Values.string w) op = string_op v w op
  binary_op Values.unknown Values.unknown op = equality Values.unknown Values.unknown op
  binary_op (Values.bool a) (Values.bool b) op = equality (Values.bool a) (Values.bool b) op
  binary_op Values.null Values.null op = equality Values.null Values.null op
  binary_op (Values.fn f) (Values.fn g) op = equality (Values.fn f) (Values.fn g) op
  binary_op (Values.fn_native f) (Values.fn_native g) op =
      equality (Values.fn_native f) (Values.fn_native g) op
  binary_op (Values.type f) (Values.type g) op = equality (Values.type f) (Values.type g) op
  binary_op (Values.type_inst f b) (Values.type_inst g c) op =
      equality (Values.type_inst f b) (Values.type_inst g c) op
  binary_op (Values.interface f) (Values.interface g) op =
      equality (Values.interface f) (Values.interface g) op
  binary_op Values.error Values.error op = equality Values.error Values.error op
  binary_op _ _ op = ok Values.unknown
