-- ===== src/Values.antt =====
-- include/snuk/interpreter/snuk_value.h and the operators of src/interpreter/interpreter.c: values,
-- their truth, and what the unary and binary operators make of them. `F` are the floats and `H` what
-- a function or a type refers to. Reference counting of the operands is left out.
pub mod Operators
pub mod Order
pub mod Division
pub mod Unary
mod Tests
use snuk.Prelude.{ℕ, Bool, true, false, not, ℤ, pos, eqb_ℤ}
use snuk.Text.{StringView}
use snuk.Prelude.{◌==◌}

pub data SnukValue (F H : Type 0) : Type 0 where
  unknown : SnukValue F H
  int : ℤ → SnukValue F H
  float : F → SnukValue F H
  bool : Bool → SnukValue F H
  string : StringView → SnukValue F H
  null : SnukValue F H
  fn : H → SnukValue F H
  fn_native : H → SnukValue F H
  type : H → SnukValue F H
  type_inst : H → Bool → SnukValue F H
  interface : H → SnukValue F H
  error : SnukValue F H

-- The arithmetic of `double`.
pub record Floats (F : Type 0) : Type 0 where
  pub fneg : F → F
  pub fadd : F → F → F
  pub fsub : F → F → F
  pub fmul : F → F → F
  pub fdiv : F → F → F
  pub flt : F → F → Bool
  pub feq : F → F → Bool
  pub fzero : F

module _ {F H : Type 0} (fl : Floats F) where
  -- The flag of an instance is whether its closure is there.
  unfoldable pub is_true : SnukValue F H → Bool
  is_true unknown = false
  is_true null = false
  is_true (bool b) = b
  is_true (int n) = not (eqb_ℤ n (pos 0))
  is_true (float x) = not (fl.feq x fl.fzero)
  is_true (string v) = not (v.len == 0)
  is_true (fn h) = true
  is_true (type h) = true
  is_true (type_inst h closure) = closure
  is_true _ = false
