-- ===== src/Text/Concat.antt =====
-- `snuk_string_view_concat`: what it shows, and what a length of 0 does to it.
use snuk.Prelude.{
  ℕ, zero, suc, ◌+◌, ◌≤◌, ◌<◌, ◌≡◌, refl, ap, List, [], ◌∷◌, ◌++◌, length, take, arith, ◌==◌,
  if◌then◌else◌, length-append,
}
use native.Mathlib.Nat.{zero-add}
use snuk.Text.{StringView, content, Fits, string_length, concat}
use snuk.Text.Equal.{length-take_le, string_length-length}

pub take_all : (a : List ℕ) → take (length a) a ≡ a
take_all [] = refl
take_all (x ∷ a) = ap (◌∷◌ x) (take_all a)

take_exactly : (a : List ℕ) (n : ℕ) → length a ≡ n → take n a ≡ a
take_exactly a n h = rw (← h) (take_all a)

chosen : (n m : ℕ) → 0 < n → (if n == 0 then m else n) ≡ n
chosen n m h = ground arith

pub take_le_append : (n : ℕ) (a b : List ℕ) → n ≤ length a → take n (a ++ b) ≡ take n a
take_le_append zero a b h = refl
take_le_append (suc n) [] b h = absurd (omega arith)
take_le_append (suc n) (x ∷ a) b h = ap (◌∷◌ x) (take_le_append n a b (omega arith))

-- Two views that are not empty concatenate to the characters of both.
pub content-concat :
    (v w : StringView)
    → Fits v
    → Fits w
    → 0 < v.len
    → 0 < w.len
    → content (concat v w) ≡ content v ++ content w
unfolding concat
content-concat v w p q nv nw =
    rw (chosen v.len (string_length v.str) nv, chosen w.len (string_length w.str) nw)
      (take_exactly (content v ++ content w) (v.len + w.len) (
        omega (
          arith,
          length-append (content v) (content w),
          length-take_le v.len v.str p,
          length-take_le w.len w.str q,
        )))

-- An empty view into a string that goes on stands for the rest of that string: what the result
-- shows is taken from it, and the characters of the second view are lost.
content-concat_empty :
    (v w : StringView)
    → v.len ≡ 0
    → 0 < w.len
    → w.len ≤ length v.str
    → content (concat v w) ≡ take w.len v.str
unfolding concat
content-concat_empty v w e nw long =
    rw (e, chosen w.len (string_length w.str) nw, zero-add, string_length-length, take_all)
      (take_le_append w.len v.str (content w) long)
