-- ===== src/Go/Strings.antt =====
-- `strings.Split` at one byte, `strings.TrimRight` at one byte, `strings.TrimSpace`, and
-- `strconv.FormatInt` in base ten.
pub mod Parts
pub mod Decimal
use mathlib.Core.List.{reverse}
use ztxbas.Base.{ℕ, Bool, true, false, ◌||◌, ◌&&◌, List, [], ◌∷◌, ◌++◌, ◌==◌, leb, if◌then◌else◌}
use ztxbas.Base.Text.{Text}

-- The current part is in `cur`, in order.
cut : ℕ → Text → Text → List Text
cut sep cur [] = cur ∷ []
cut sep cur (c ∷ s) = elim (c == sep) [
  | true ↦ cur ∷ cut sep [] s
  | false ↦ cut sep (mathlib.Core.List.◌++◌ cur (c ∷ [])) s
]

unfoldable pub split : Text → ℕ → List Text
unfolding cut
split s sep = cut sep [] s

-- Drops bytes `b` from the front.
unfoldable pub trim_left : (ℕ → Bool) → Text → Text
trim_left p [] = []
trim_left p (c ∷ s) = elim (p c) [ true ↦ trim_left p s | false ↦ c ∷ s ]

unfoldable pub trim_right : (ℕ → Bool) → Text → Text
unfolding trim_left
trim_right p s = reverse (trim_left p (reverse s))

-- White space of one byte; error bodies with other Unicode spaces at an end are left out.
pub is_space : ℕ → Bool
is_space c = c == 32 || leb 9 c && leb c 13

unfoldable pub trim_space : Text → Text
unfolding trim_left trim_right is_space
trim_space s = trim_right is_space (trim_left is_space s)
