-- ===== src/Chars.antt =====
-- include/snuk/snuk_string.h, the tests on characters. A `char` is its byte, 0 to 255: no test
-- below tells a byte from 128 on from the negative `char` that it is on a signed platform.
pub mod Case
use Prim.Native.Nat.{bit_and, bit_or}
use snuk.Prelude.{ℕ, ◌-◌, Bool, true, false, ◌&&◌, ◌||◌, List, [], ◌∷◌, leb, ◌==◌, if◌then◌else◌}

-- The loop looks at `s[0]` whatever it is. On the empty string it would go on to read past the
-- terminator; every caller passes a literal that is not empty.
unfoldable pub char_in_string : ℕ → List ℕ → Bool
char_in_string c [] = c == 0
char_in_string c (x ∷ []) = x == c
char_in_string c (x ∷ y ∷ s) = x == c || char_in_string c (y ∷ s)

unfoldable pub is_white_space : ℕ → Bool
unfolding char_in_string
is_white_space c = char_in_string c (b' ' ∷ b'\t' ∷ b'\r' ∷ b'\n' ∷ [])

unfoldable pub is_alpha : ℕ → Bool
is_alpha c = (leb b'a' c && leb c b'z') || (leb b'A' c && leb c b'Z')

unfoldable pub is_alpha_numeric : ℕ → Bool
unfolding is_alpha
is_alpha_numeric c = is_alpha c || (leb b'0' c && leb c b'9')

unfoldable pub is_digit : ℕ → Bool
is_digit c = leb b'0' c && leb c b'9'

unfoldable pub is_binary_digit : ℕ → Bool
is_binary_digit c = c == b'0' || c == b'1'

unfoldable pub is_octal_digit : ℕ → Bool
is_octal_digit c = leb b'0' c && leb c b'7'

unfoldable pub is_hex_digit : ℕ → Bool
is_hex_digit c =
    if leb b'0' c && leb c b'9'
    then true
    else let lower = bit_or c 0x20 in leb b'a' lower && leb lower b'f'

unfoldable pub lower_case : ℕ → ℕ
unfolding is_alpha
lower_case c = if is_alpha c then bit_or c 0x20 else c

-- `~(1 << 5)` on a byte
unfoldable pub upper_case : ℕ → ℕ
unfolding is_alpha
upper_case c = if is_alpha c then bit_and c (0xff - 0x20) else c
