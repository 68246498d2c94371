-- ===== src/Chars/Case.antt =====
-- Laws of the tests on characters, over all bytes.
use snuk.Prelude.{
  ℕ, zero, suc, ◌+◌, ◌-◌, ◌<◌, ◌≡◌, refl, ap, Bool, true, false, ◌&&◌, arith, ◌==◌, leb,
  if◌then◌else◌,
}
use snuk.Chars.{lower_case, upper_case}

-- Two functions give the same for every byte that is less than the bound.
agree_below : (ℕ → ℕ) → (ℕ → ℕ) → ℕ → Bool
agree_below f g zero = true
agree_below f g (suc bound) = if f bound == g bound then agree_below f g bound else false

agreement : (f g : ℕ → ℕ) (bound c : ℕ) → c < bound → agree_below f g bound ≡ true → f c ≡ g c
unfolding agree_below
agreement f g (suc bound) c below table =
    ground (arith, agreement f g bound c, ap f {x = c} {y = bound}, ap g {x = c} {y = bound})
agreement f g zero c below table = absurd (omega (arith, below))

abbrev pub is_upper : ℕ → Bool
is_upper c = leb b'A' c && leb c b'Z'

abbrev pub is_lower : ℕ → Bool
is_lower c = leb b'a' c && leb c b'z'

abbrev to_lower : ℕ → ℕ
to_lower c = if is_upper c then c + 32 else c

abbrev to_upper : ℕ → ℕ
to_upper c = if is_lower c then c - 32 else c

lower_case_table : agree_below lower_case to_lower 256 ≡ true
unfolding agree_below lower_case
lower_case_table = refl

upper_case_table : agree_below upper_case to_upper 256 ≡ true
unfolding agree_below upper_case
upper_case_table = refl

-- A byte is changed to lower case exactly when it is an upper case letter of ASCII.
pub lower_case_lem : (c : ℕ) → c < 256 → lower_case c ≡ (if is_upper c then c + 32 else c)
lower_case_lem c h = agreement lower_case to_lower 256 c h lower_case_table

-- A byte is changed to upper case exactly when it is a lower case letter of ASCII.
pub upper_case_lem : (c : ℕ) → c < 256 → upper_case c ≡ (if is_lower c then c - 32 else c)
upper_case_lem c h = agreement upper_case to_upper 256 c h upper_case_table
