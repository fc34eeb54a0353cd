-- ===== src/Schema/Names.antt =====
-- NormalizeName of internal/schema/schema.go, and what it uses of strings: TrimSpace and ToLower on
-- ASCII text.
use mathlib.Core.List.{reverse}
use dripsql.Base.{
  ℕ, ◌+◌, Bool, ◌&&◌, ◌||◌, [], ◌∷◌, map, Text, nat_eq, ◌==◌, leb, if◌then◌else◌, ◌≡◌, refl,
}

unfoldable pub is_space : ℕ → Bool
is_space c = (leb 9 c && leb c 13) || c == 32

unfoldable pub lower : ℕ → ℕ
lower c = if leb b'A' c && leb c b'Z' then c + 32 else c

unfoldable pub trim_left : Text → Text
trim_left [] = []
trim_left (c ∷ s) = let rest = trim_left s in if is_space c then rest else c ∷ s

unfoldable pub trim_space : Text → Text
unfolding trim_left
trim_space s = reverse (trim_left (reverse (trim_left s)))

unfoldable pub to_lower : Text → Text
unfolding lower
to_lower s = map lower s

unfoldable pub normalize_name : Text → Text
unfolding trim_space to_lower
normalize_name name = to_lower (trim_space name)

normalizes : normalize_name (32 ∷ b'U' ∷ b's' ∷ 9 ∷ []) ≡ b'u' ∷ b's' ∷ []
unfolding normalize_name is_space
normalizes = refl
