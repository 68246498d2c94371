-- ===== src/Text.antt =====
-- include/snuk/snuk_string.h and include/snuk/string_view.h: strings and views of them. A pointer
-- into a string is the list of the bytes from it up to the terminator, which is not listed; reading
-- the terminator gives 0. Copies into fresh memory have the bytes of what they copy.
pub mod Equal
pub mod Concat
mod Tests
use snuk.Prelude.{
  ℕ, zero, suc, ◌+◌, ◌≤◌, Bool, true, false, not, ◌&&◌, List, [], ◌∷◌, ◌++◌, length, take, ◌==◌,
  if◌then◌else◌,
}
use snuk.Chars.{lower_case}

pub record StringView : Type 0 where
  pub str : List ℕ
  pub len : ℕ

unfoldable pub create_with_len : List ℕ → ℕ → StringView
create_with_len s n = record { str = s; len = n }

unfoldable pub string_length : List ℕ → ℕ
string_length [] = 0
string_length (c ∷ s) = suc (string_length s)

unfoldable pub create : List ℕ → StringView
unfolding create_with_len string_length
create s = create_with_len s (string_length s)

-- The bytes that a view shows.
abbrev pub content : StringView → List ℕ
content v = take v.len v.str

-- The view ends inside its string.
abbrev pub Fits : StringView → Type 0
Fits v = v.len ≤ length v.str

unfoldable pub string_equal : List ℕ → List ℕ → Bool
string_equal [] [] = true
string_equal (x ∷ a) (y ∷ b) = x == y && string_equal a b
string_equal _ _ = false

unfoldable pub string_equal_ignore_case : List ℕ → List ℕ → Bool
string_equal_ignore_case [] [] = true
string_equal_ignore_case (x ∷ a) (y ∷ b) =
    lower_case x == lower_case y && string_equal_ignore_case a b
string_equal_ignore_case _ _ = false

-- How far the loop of `snuk_string_n_equal` gets.
n_equal_loop : List ℕ → List ℕ → ℕ → ℕ → ℕ
n_equal_loop (x ∷ a) (y ∷ b) (suc n) i = if x == y then n_equal_loop a b n (i + 1) else i
n_equal_loop _ _ _ i = i

unfoldable pub string_n_equal : List ℕ → List ℕ → ℕ → Bool
unfolding n_equal_loop
string_n_equal a b n = n_equal_loop a b n 0 == n

-- `memcmp(a, b, n) == 0`; it does not read past a terminator where both views fit.
pub memcmp_equal : List ℕ → List ℕ → ℕ → Bool
memcmp_equal a b zero = true
memcmp_equal (x ∷ a) (y ∷ b) (suc n) = x == y && memcmp_equal a b n
memcmp_equal _ _ (suc n) = false

unfoldable pub equal : StringView → StringView → Bool
unfolding memcmp_equal
equal a b =
    if not (a.len == b.len)
    then false
    else if a.len == 0
    then true
    else memcmp_equal a.str b.str a.len

lower_equal : List ℕ → List ℕ → ℕ → Bool
lower_equal a b zero = true
lower_equal (x ∷ a) (y ∷ b) (suc n) =
    if not (lower_case x == lower_case y) then false else lower_equal a b n
lower_equal _ _ (suc n) = false

unfoldable pub equal_ignore_case : StringView → StringView → Bool
unfolding lower_equal
equal_ignore_case a b =
    if not (a.len == b.len)
    then false
    else if a.len == 0
    then true
    else lower_equal a.str b.str a.len

unfoldable pub equal_cstr : StringView → List ℕ → Bool
unfolding equal create
equal_cstr a b = equal a (create b)

unfoldable pub equal_cstr_ignore_case : StringView → List ℕ → Bool
unfolding equal_ignore_case create
equal_cstr_ignore_case a b = equal_ignore_case a (create b)

-- A length of 0 stands for the length of the whole string.
unfoldable pub string_concat : List ℕ → ℕ → List ℕ → ℕ → List ℕ
unfolding string_length
string_concat a alen b blen =
    let n = if alen == 0 then string_length a else alen in
    let m = if blen == 0 then string_length b else blen in take n a ++ take m b

unfoldable pub concat : StringView → StringView → StringView
unfolding string_concat
concat a b = record { str = string_concat a.str a.len b.str b.len; len = a.len + b.len }
