-- ===== src/Prelude/Products.antt =====
-- Products of native numbers.
use Prim.Native.Nat.{ℕ, ◌+◌, ◌-◌, ◌*◌, ◌≤◌}
use mathlib.Core.Path.{◌≡◌, ap, ◌∙◌}
use native.Mathlib.Omega.{arith}

pub mul_mono : (k n s : ℕ) → k ≤ n → k * s ≤ n * s
mul_mono k n s le = omega (arith, split (n - k) (omega arith))
  where
    split : (d : ℕ) → n ≡ k + d → n * s ≡ k * s + d * s
    split d e = ap (λ n. n * s) e ∙ omega arith
