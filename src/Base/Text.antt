-- ===== src/Base/Text.antt =====
-- Go strings and byte slices: lists of bytes.
use Prim.Native.Nat.{ℕ, ◌<◌}
use Prim.Native.Char.{code}
use Prim.Native.String.{String}
use mathlib.Core.Path.{◌≡◌, refl}
use mathlib.Core.Logic.{◌↔◌, ◌≢◌}
use mathlib.Core.Bool.{Bool, true, false, ◌&&◌}
use mathlib.Core.List.{List, [], ◌∷◌}
use native.Mathlib.Omega.{arith}
use ztxbas.Base.Tests.{◌==◌, &&-eq-true, ==_iff}
use ztxbas.Base.Lists.{All}

abbrev pub Bytes : Type 0
Bytes = List ℕ

abbrev pub Text : Type 0
Text = List ℕ

-- The bytes of an ASCII literal.
abbrev pub codes : String → Text
codes String.[] = []
codes (String.◌∷◌ c s) = code c ∷ codes s

-- s == t
unfoldable pub same : Text → Text → Bool
same [] [] = true
same [] (_ ∷ _) = false
same (_ ∷ _) [] = false
same (a ∷ s) (b ∷ t) = a == b && same s t

-- s == ""
unfoldable pub is_empty : Text → Bool
is_empty [] = true
is_empty (_ ∷ _) = false

same_sound : (s t : Text) → same s t ≡ true → s ≡ t
unfolding same
same_sound [] [] h = refl
same_sound [] (b ∷ t) h = cc
same_sound (a ∷ s) [] h = cc
same_sound (a ∷ s) (b ∷ t) h =
    let (p, q) = &&-eq-true (a == b) (same s t) h in cc ((==_iff a b).0 p, same_sound s t q)

pub same_self : (s : Text) → same s s ≡ true
unfolding same
same_self [] = refl
same_self (a ∷ s) = ground (arith, same_self s)

pub same_iff : (s t : Text) → (same s t ≡ true) ↔ (s ≡ t)
same_iff s t = (same_sound s t, λ e. ground (arith, same_self s))

pub is_empty_iff : (s : Text) → (is_empty s ≡ true) ↔ (s ≡ [])
unfolding is_empty
is_empty_iff [] = ((λ _. refl), λ _. refl)
is_empty_iff (a ∷ s) = ((λ h. cc), λ h. cc)

abbrev pub IsByte : ℕ → Type 0
IsByte c = c < 256

-- The text holds no byte `b`.
abbrev pub Lacks : ℕ → Text → Type 0
Lacks b = All (λ c. c ≢ b)
