-- ===== src/Go/Strings/Decimal.antt =====
-- `strconv.FormatInt(z, 10)`: the digits, by division, and the sign. Twenty rounds are enough for
-- the absolute value of an `int64`.
pub mod Reading
use mathlib.Core.List.{foldl}
use native.Mathlib.Nat.{pow-suc}
use ztxbas.Base.{
  ℕ, zero, suc, ◌+◌, ◌-◌, ◌*◌, ◌/◌, ◌%◌, ◌<◌, ◌≤◌, ◌^◌, ◌≡◌, ◌≢◌, ap, ◌∙◌, sym, [], ◌∷◌, ltb,
  if◌then◌else◌, arith, All,
}
use ztxbas.Base.Int.{ℤ, pos, negsuc, IsInt64}
use ztxbas.Base.Text.{Text, Lacks}

pub digits : ℕ → ℕ → Text → Text
digits zero n out = out
digits (suc f) n out =
    let longer = digits f (n / 10) ((b'0' + n % 10) ∷ out) in
    if ltb n 10 then (b'0' + n % 10) ∷ out else longer

unfoldable pub format_int : ℤ → Text
unfolding digits
format_int (pos n) = digits 20 n []
format_int (negsuc n) = b'-' ∷ digits 20 (suc n) []

-- The number that digits spell, behind the number read so far.
abbrev pub value : ℕ → Text → ℕ
value = foldl (λ n c. n * 10 + (c - b'0'))

abbrev pub IsDigit : ℕ → Type 0
IsDigit c = (b'0' ≤ c) × (c ≤ b'9')

pub value-digits : (f n : ℕ) (out : Text) → n < 10 ^ f → value 0 (digits f n out) ≡ value n out
unfolding digits
value-digits zero n out h = ground arith
value-digits (suc f) n out h =
    ground (arith, pow-suc 10 f, value-digits f (n / 10) ((b'0' + n % 10) ∷ out))

pub digits-IsDigit : (f n : ℕ) (out : Text) → All IsDigit out → All IsDigit (digits f n out)
unfolding digits
digits-IsDigit zero n out h = h
digits-IsDigit (suc f) n out h = ground (arith, digits-IsDigit f (n / 10) ((b'0' + n % 10) ∷ out))

-- Different numbers have different texts.
digits_injective : (m n : ℕ) → m < 10 ^ 20 → n < 10 ^ 20 → digits 20 m [] ≡ digits 20 n [] → m ≡ n
digits_injective m n hm hn e =
    sym (value-digits 20 m [] hm) ∙ (ap (value 0) e ∙ value-digits 20 n [] hn)

digits-ne-minus : (s t : Text) → All IsDigit s → s ≢ b'-' ∷ t
digits-ne-minus [] t h e = cc
digits-ne-minus (c ∷ s) t (h, _) e = ground arith

-- Different `int64` values have different decimal texts.
pub format_int_injective : (a b : ℤ) → IsInt64 a → IsInt64 b → format_int a ≡ format_int b → a ≡ b
unfolding format_int
format_int_injective (pos m) (pos n) ha hb e =
    ap pos (digits_injective m n (omega arith) (omega arith) e)
format_int_injective (pos m) (negsuc n) ha hb e =
    absurd (digits-ne-minus _ _ (digits-IsDigit 20 m [] tt) e)
format_int_injective (negsuc m) (pos n) ha hb e =
    absurd (digits-ne-minus _ _ (digits-IsDigit 20 n [] tt) (sym e))
format_int_injective (negsuc m) (negsuc n) ha hb e =
    let same_digits = digits_injective (suc m) (suc n) (omega arith) (omega arith) (ground arith) in
    ground (arith, same_digits)

IsDigit-Lacks : (s : Text) → All IsDigit s → Lacks b'|' s
IsDigit-Lacks [] h = tt
IsDigit-Lacks (c ∷ s) (h, hs) = (ground arith, IsDigit-Lacks s hs)

-- The text of a number holds no bar.
pub format_int-Lacks : (z : ℤ) → Lacks b'|' (format_int z)
unfolding format_int
format_int-Lacks (pos n) = IsDigit-Lacks _ (digits-IsDigit 20 n [] tt)
format_int-Lacks (negsuc n) = (ground arith, IsDigit-Lacks _ (digits-IsDigit 20 (suc n) [] tt))
