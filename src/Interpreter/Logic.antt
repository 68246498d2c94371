-- ===== src/Interpreter/Logic.antt =====
-- src/interpreter/interpreter.c: `and`, `or` and `not` evaluate as much as they need.
use snuk.Prelude.{ℕ, suc, Bool, true, false, not, ◌≡◌, refl, if◌then◌else◌}
use snuk.Lexer.Token
use snuk.Parser.Syntax
use snuk.Parser.Syntax.{SnukExpr}
use snuk.Values
use snuk.Values.{Floats, is_true}
use snuk.Values.Operators.{unary_op}
use snuk.Interpreter.State.{
  Value, SnukInterpreter, Run, done, fault, out_of_rounds, I, bind, pure, lift,
}
use snuk.Interpreter.Control.{execute_unary_op, execute_binary_op, with_left, is_or, is_and, holds}
use snuk.Interpreter.Whole.{calls_of, eval_body}

-- The steps behind the evaluation of an operand; `right` evaluates the right one.
module _ {F : Type 0} (fl : Floats F) where
  abbrev negate : Value F → I F (Value F)
  negate v = lift (unary_op fl Token.kw_not v)

  abbrev truth_of : I F (Value F) → I F (Value F)
  truth_of m = λ s. bind (bind (m s) (λ w. pure (is_true fl w))) (λ b. pure (Values.bool b))

  abbrev and_step : I F (Value F) → Value F → I F (Value F)
  and_step right v = if is_true fl v then truth_of right else pure (Values.bool false)

  abbrev or_step : I F (Value F) → Value F → I F (Value F)
  or_step right v = if is_true fl v then pure (Values.bool true) else truth_of right

  abbrev negated : I F (Value F) → I F (Value F)
  negated m = λ s. bind (m s) negate

  not-and_right :
      (b : Bool) (right : I F (Value F)) (s : SnukInterpreter F) (m : Run F (Value F))
      → right s ≡ m
      → bind ((if b then truth_of right else pure (Values.bool false)) s) negate
        ≡ (if not b then pure (Values.bool true) else truth_of (negated right)) s
  unfolding unary_op is_true
  not-and_right true right s (done w t) p = rw p refl
  not-and_right true right s (fault e) p = rw p refl
  not-and_right true right s out_of_rounds p = rw p refl
  not-and_right false right s m p = refl

  not-and_left :
      (right : I F (Value F)) (m : Run F (Value F))
      → bind (bind m (and_step right)) negate ≡ bind (bind m negate) (or_step (negated right))
  unfolding unary_op is_true
  not-and_left right (done v s) = not-and_right (is_true fl v) right s (right s) refl
  not-and_left right (fault e) = refl
  not-and_left right out_of_rounds = refl

module _ {F : Type 0} (fl : Floats F) (others : ℕ → I F (Value F)) where
  abbrev eval : ℕ → SnukExpr F → Bool → I F (Value F)
  eval n = (calls_of fl others n).eval_expr

  -- `not (l and r)` and `not l or not r` evaluate the same operands to the same value, or end in the same
  -- fault, from each state.
  pub not-and :
      (n : ℕ) (l r : SnukExpr F) (weak : Bool) (s : SnukInterpreter F)
      → eval
          (suc (suc (suc n)))
          (Syntax.expr_unary Token.kw_not (Syntax.expr_binary Token.kw_and l r))
          weak
          s
        ≡ eval
            (suc (suc (suc n)))
            (Syntax.expr_binary Token.kw_or
              (Syntax.expr_unary Token.kw_not l)
              (Syntax.expr_unary Token.kw_not r))
            weak
            s
  unfolding calls_of eval_body execute_unary_op execute_binary_op with_left is_or is_and holds
      unary_op
  not-and n l r weak s = not-and_left fl (eval (suc n) r weak) (eval (suc n) l weak s)
