-- ===== src/Go/Strings/Decimal/Reading.antt =====
-- `strconv.ParseInt(s, 10, 64)`: a sign, digits, and the range.
use ztxbas.Base.{
  ℕ, zero, suc, ◌+◌, ◌*◌, ◌-◌, ◌/◌, ◌%◌, ◌^◌, ◌≡◌, ◌≢◌, refl, ◌∙◌, ◌&&◌, ◌==◌, leb, [], ◌∷◌, Option,
  none, some, if◌then◌else◌, All, arith,
}
use ztxbas.Base.Int.{ℤ, pos, negsuc, IsInt64}
use ztxbas.Base.Text.{Text}
use ztxbas.Go.Strings.Decimal.{format_int, digits, value, IsDigit, value-digits, digits-IsDigit}

read_digits : ℕ → Text → Option ℕ
read_digits n [] = some n
read_digits n (c ∷ s) =
    let rest = read_digits (n * 10 + (c - b'0')) s in
    if leb b'0' c && leb c b'9' then rest else none

-- At least one digit.
number : Text → Option ℕ
number [] = none
number (c ∷ s) = read_digits 0 (c ∷ s)

abbrev negative : ℕ → ℤ
negative zero = pos 0
negative (suc n) = negsuc n

abbrev up_to : ℕ → (ℕ → ℤ) → Option ℕ → Option ℤ
up_to limit sign none = none
up_to limit sign (some n) = if leb n limit then some (sign n) else none

unfoldable pub parse_int64 : Text → Option ℤ
unfolding number read_digits
parse_int64 [] = none
parse_int64 (c ∷ s) =
    if c == b'-'
    then up_to (2 ^ 63) negative (number s)
    else if c == b'+'
    then up_to (2 ^ 63 - 1) pos (number s)
    else up_to (2 ^ 63 - 1) pos (number (c ∷ s))

read_digits-value : (n : ℕ) (s : Text) → All IsDigit s → read_digits n s ≡ some (value n s)
unfolding read_digits
read_digits-value n [] h = refl
read_digits-value n (c ∷ s) (d, h) = ground (arith, read_digits-value (n * 10 + (c - b'0')) s h)

digits_cons : (f n c : ℕ) (s : Text) → digits f n (c ∷ s) ≢ []
unfolding digits
digits_cons zero n c s e = cc
digits_cons (suc f) n c s e = ground (arith, digits_cons f (n / 10) (b'0' + n % 10) (c ∷ s))

pub digits_full : (n : ℕ) → digits 20 n [] ≢ []
unfolding digits
digits_full n e = ground (arith, digits_cons 19 (n / 10) (b'0' + n % 10) [])

number-value : (s : Text) → s ≢ [] → All IsDigit s → number s ≡ some (value 0 s)
unfolding number
number-value [] ne h = absurd (ne refl)
number-value (c ∷ s) ne h = read_digits-value 0 (c ∷ s) h

digit-unsigned :
    (s : Text) → s ≢ [] → All IsDigit s → parse_int64 s ≡ up_to (2 ^ 63 - 1) pos (number s)
unfolding parse_int64
digit-unsigned [] ne h = absurd (ne refl)
digit-unsigned (c ∷ s) ne (d, h) = ground arith

parse_int64_minus : (s : Text) → parse_int64 (b'-' ∷ s) ≡ up_to (2 ^ 63) negative (number s)
unfolding parse_int64
parse_int64_minus s = refl

-- What `strconv.FormatInt` prints is read back.
pub parse_int64-format_int : (z : ℤ) → IsInt64 z → parse_int64 (format_int z) ≡ some z
unfolding format_int
parse_int64-format_int (pos n) h =
    let d = digits-IsDigit 20 n [] tt in
    digit-unsigned (digits 20 n []) (digits_full n) d
    ∙ rw (number-value (digits 20 n []) (digits_full n) d, value-digits 20 n [] (omega arith))
        (ground arith)
parse_int64-format_int (negsuc n) h =
    let d = digits-IsDigit 20 (suc n) [] tt in
    parse_int64_minus (digits 20 (suc n) [])
    ∙ rw
        (
          number-value (digits 20 (suc n) []) (digits_full (suc n)) d,
          value-digits 20 (suc n) [] (omega arith),
        )
        (ground arith)
