-- ===== src/Go/Encoding.antt =====
-- `hex.EncodeToString` and `base64.RawURLEncoding.DecodeString`. A refused text is `none`: the
-- offset that Go's error names is left out.
pub mod RoundTrip
use ztxbas.Base.{
  ℕ, ◌+◌, ◌-◌, ◌*◌, ◌/◌, ◌%◌, Bool, ◌||◌, ◌&&◌, [], ◌∷◌, List, Option, none, some, ◌==◌, ltb, leb,
  if◌then◌else◌,
}
use ztxbas.Base.Text.{Bytes, Text}

abbrev pub hex_digit : ℕ → ℕ
hex_digit n = if ltb n 10 then b'0' + n else b'a' + (n - 10)

unfoldable pub hex_encode : Bytes → Text
hex_encode [] = []
hex_encode (b ∷ s) = hex_digit (b / 16) ∷ hex_digit (b % 16) ∷ hex_encode s

-- The six bits that a character of the URL-safe alphabet stands for.
unfoldable pub sextet : ℕ → Option ℕ
sextet c =
    if leb b'A' c && leb c b'Z'
    then some (c - b'A')
    else if leb b'a' c && leb c b'z'
    then some (c - b'a' + 26)
    else if leb b'0' c && leb c b'9'
    then some (c - b'0' + 52)
    else if c == b'-'
    then some 62
    else if c == b'_'
    then some 63
    else none

-- Line ends are skipped; any other character must be of the alphabet.
pub sextets : Text → Option (List ℕ)
unfolding sextet
sextets [] = some []
sextets (c ∷ s) = elim (c == 10 || c == 13) [
  | mathlib.Core.Bool.true ↦ sextets s
  | mathlib.Core.Bool.false ↦ elim (sextet c) [
    | none ↦ none
    | some d ↦ elim (sextets s) [ none ↦ none | some ds ↦ some (d ∷ ds) ]
  ]
]

-- Four sextets are three bytes; two or three at the end are one or two, and the bits left over are
-- not looked at. One alone is refused.
pub quanta : List ℕ → Option Bytes
quanta [] = some []
quanta (a ∷ []) = none
quanta (a ∷ b ∷ []) = some ((a * 4 + b / 16) ∷ [])
quanta (a ∷ b ∷ c ∷ []) = some ((a * 4 + b / 16) ∷ (b % 16 * 16 + c / 4) ∷ [])
quanta (a ∷ b ∷ c ∷ d ∷ s) = elim (quanta s) [
  | none ↦ none
  | some out ↦ some ((a * 4 + b / 16) ∷ (b % 16 * 16 + c / 4) ∷ (c % 4 * 64 + d) ∷ out)
]

unfoldable pub base64_decode : Text → Option Bytes
unfolding sextets quanta
base64_decode s = elim (sextets s) [ none ↦ none | some ds ↦ quanta ds ]
