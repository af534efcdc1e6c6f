-- ===== src/Go/Encoding/RoundTrip.antt =====
-- Hexadecimal text determines its bytes, and base64 decoding undoes an encoder written after RFC 4648.
use ztxbas.Base.{
  ◌≢◌, ℕ, ◌+◌, ◌-◌, ◌*◌, ◌/◌, ◌%◌, ◌≡◌, refl, [], ◌∷◌, List, some, ◌==◌, ltb, if◌then◌else◌, arith,
  All, length, ◌<◌, ◌≤◌, ◌⊎◌,
}
use ztxbas.Base.Text.{Bytes, Text, IsByte, Lacks}
use ztxbas.Go.Encoding.{hex_digit, hex_encode, sextet, sextets, quanta, base64_decode}

pub length-hex_encode : (s : Bytes) → length (hex_encode s) ≡ 2 * length s
unfolding hex_encode
length-hex_encode [] = refl
length-hex_encode (b ∷ s) = omega (arith, length-hex_encode s)

-- A lower-case hexadecimal digit.
abbrev pub IsHex : ℕ → Type 0
IsHex c = ((b'0' ≤ c) × (c ≤ b'9')) ⊎ ((b'a' ≤ c) × (c ≤ b'f'))

pub hex_encode-IsHex : (s : Bytes) → All IsByte s → All IsHex (hex_encode s)
unfolding hex_encode
hex_encode-IsHex [] h = tt
hex_encode-IsHex (b ∷ s) (hb, h) = (ground arith, (ground arith, hex_encode-IsHex s h))

pub IsHex-Lacks : (s : Text) → All IsHex s → Lacks b'|' s
IsHex-Lacks [] h = tt
IsHex-Lacks (c ∷ s) (hc, h) = (ground arith, IsHex-Lacks s h)

hex_digit_injective : (m n : ℕ) → m < 16 → n < 16 → hex_digit m ≡ hex_digit n → m ≡ n
hex_digit_injective m n hm hn e = ground arith

pub hex_encode_injective :
    (s t : Bytes) → All IsByte s → All IsByte t → hex_encode s ≡ hex_encode t → s ≡ t
unfolding hex_encode
hex_encode_injective [] [] hs ht e = refl
hex_encode_injective [] (b ∷ t) hs ht e = cc
hex_encode_injective (a ∷ s) [] hs ht e = cc
hex_encode_injective (a ∷ s) (b ∷ t) (ha, hs) (hb, ht) e = ground (
  arith,
  hex_digit_injective (a / 16) (b / 16),
  hex_digit_injective (a % 16) (b % 16),
  hex_encode_injective s t hs ht,
)

-- The encoder of RFC 4648, section 5, without padding.
abbrev letter : ℕ → ℕ
letter n =
    if ltb n 26
    then b'A' + n
    else if ltb n 52
    then b'a' + (n - 26)
    else if ltb n 62
    then b'0' + (n - 52)
    else if n == 62
    then b'-'
    else b'_'

unfoldable pub base64_encode : Bytes → Text
base64_encode [] = []
base64_encode (a ∷ []) = letter (a / 4) ∷ letter (a % 4 * 16) ∷ []
base64_encode (a ∷ b ∷ []) =
    letter (a / 4) ∷ letter (a % 4 * 16 + b / 16) ∷ letter (b % 16 * 4) ∷ []
base64_encode (a ∷ b ∷ c ∷ s) =
    letter (a / 4)
    ∷ letter (a % 4 * 16 + b / 16)
    ∷ letter (b % 16 * 4 + c / 64)
    ∷ letter (c % 64)
    ∷ base64_encode s

sextet-letter : (n : ℕ) → n < 64 → sextet (letter n) ≡ some n
unfolding sextet
sextet-letter n h = ground arith

sextets-cons :
    (c d : ℕ) (s : Text) (ds : List ℕ)
    → sextet c ≡ some d
    → c ≢ 10
    → c ≢ 13
    → sextets s ≡ some ds
    → sextets (c ∷ s) ≡ some (d ∷ ds)
unfolding sextets
sextets-cons c d s ds e h k hs = ground arith

letter-ne : (n : ℕ) → n < 64 → (letter n ≢ 10) × (letter n ≢ 13)
letter-ne n h = ((λ e. ground arith), λ e. ground arith)

sextets-letter :
    (n : ℕ) (s : Text) (ds : List ℕ)
    → n < 64
    → sextets s ≡ some ds
    → sextets (letter n ∷ s) ≡ some (n ∷ ds)
sextets-letter n s ds h e =
    let (p, q) = letter-ne n h in sextets-cons (letter n) n s ds (sextet-letter n h) p q e

sextets-nil : sextets [] ≡ some []
unfolding sextets
sextets-nil = refl

-- The sextets of some bytes.
groups : Bytes → List ℕ
groups [] = []
groups (a ∷ []) = a / 4 ∷ a % 4 * 16 ∷ []
groups (a ∷ b ∷ []) = a / 4 ∷ (a % 4 * 16 + b / 16) ∷ b % 16 * 4 ∷ []
groups (a ∷ b ∷ c ∷ s) = a / 4 ∷ (a % 4 * 16 + b / 16) ∷ (b % 16 * 4 + c / 64) ∷ c % 64 ∷ groups s

sextets-encode : (s : Bytes) → All IsByte s → sextets (base64_encode s) ≡ some (groups s)
unfolding base64_encode groups
sextets-encode [] h = sextets-nil
sextets-encode (a ∷ []) (ha, _) =
    sextets-letter _ _ _ (omega arith) (sextets-letter _ _ _ (omega arith) sextets-nil)
sextets-encode (a ∷ b ∷ []) (ha, (hb, _)) =
    sextets-letter _ _ _ (omega arith)
      (sextets-letter _ _ _ (omega arith) (sextets-letter _ _ _ (omega arith) sextets-nil))
sextets-encode (a ∷ b ∷ c ∷ s) (ha, (hb, (hc, h))) = sextets-letter _ _ _ (omega arith) (
    sextets-letter _ _ _ (omega arith) (
      sextets-letter _ _ _ (omega arith) (sextets-letter _ _ _ (omega arith) (sextets-encode s h))))

quanta-groups : (s : Bytes) → All IsByte s → quanta (groups s) ≡ some s
unfolding quanta groups
quanta-groups [] h = refl
quanta-groups (a ∷ []) h = ground arith
quanta-groups (a ∷ b ∷ []) h = ground arith
quanta-groups (a ∷ b ∷ c ∷ s) h = ground (arith, quanta-groups s h.1.1.1)

-- Decoding undoes encoding, for all bytes.
pub decode-encode : (s : Bytes) → All IsByte s → base64_decode (base64_encode s) ≡ some s
unfolding base64_decode
decode-encode s h = ground (arith, sextets-encode s h, quanta-groups s h)
