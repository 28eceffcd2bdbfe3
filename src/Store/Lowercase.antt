-- ===== src/Store/Lowercase.antt =====
-- `str::to_lowercase` of the standard library. On ASCII it maps A-Z to a-z and leaves every other
-- byte; for other texts the Unicode tables decide, and they are a parameter.
use red_monkey.Common.{
  ℕ, ◌+◌, ◌≡◌, refl, Text, codes, [], ◌∷◌, map, Bool, true, ◌&&◌, ltb, leb, if◌then◌else◌,
}

pub is_ascii : Text → Bool
is_ascii [] = true
is_ascii (c ∷ s) = ltb c 128 && is_ascii s

pub ascii_lower : ℕ → ℕ
ascii_lower c = if leb b'A' c && leb c b'Z' then c + 32 else c

module _ (unicode_lower : Text → Text) where
  unfoldable pub to_lowercase : Text → Text
  unfolding is_ascii ascii_lower
  to_lowercase s = if is_ascii s then map ascii_lower s else unicode_lower s

to_lowercase_test : to_lowercase (λ s. s) (codes "GeT-1") ≡ codes "get-1"
unfolding to_lowercase
to_lowercase_test = refl
