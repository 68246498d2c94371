-- ===== src/Text/Tests.antt =====
-- Strings and characters at concrete inputs.
use snuk.Prelude.{ℕ, ◌≡◌, refl, codes}
use snuk.Text.{StringView, content, concat}

abbrev abc : ℕ → StringView
abc n = record { str = codes "abc"; len = n }

abbrev abd : StringView
abd = record { str = codes "abd"; len = 2 }

concat_two : content (concat (abc 2) abd) ≡ codes "abab"
unfolding concat
concat_two = refl

-- The empty view stands for its whole string.
concat_empty : content (concat (abc 0) abd) ≡ codes "ab"
unfolding concat
concat_empty = refl
