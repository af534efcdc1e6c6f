-- ===== src/Jwks.antt =====
-- The key set of sdk-go/verify.go: `jwkSet`, `jwk`, `jwkToECDSA`, and the loop of `fetchJWKS` that
-- turns a document into a map from key ids to keys.
pub mod Curve
pub mod Keys
pub mod Refusals
pub mod Abstract
use mathlib.Core.List.{foldl}
use ztxbas.Base.{
  ℕ, ◌+◌, ◌-◌, ◌*◌, ◌%◌, ◌^◌, Bool, true, false, ◌&&◌, ◌||◌, not, List, [], ◌∷◌, ◌++◌, Option, none,
  some, ◌==◌, ltb, if◌then◌else◌,
}
use ztxbas.Base.Text.{Text, Bytes, codes, same}
use ztxbas.Go.Encoding.{base64_decode}
use ztxbas.Go.Json.{Json, Setter, set_text, set_list, set_struct}
use ztxbas.Errors.{Err, Result, ok, err, wrap, plain, foreign}
use ztxbas.Runtime.{Env, PublicKey}

pub record Jwk : Type 0 where
  pub kty : Text
  pub crv : Text
  pub alg : Text
  pub usage : Text
  pub kid : Text
  pub x : Text
  pub y : Text

abbrev pub blank_jwk : Jwk
blank_jwk = record { kty = []; crv = []; alg = []; usage = []; kid = []; x = []; y = [] }

-- The `json` tags of `jwk`.
unfoldable pub jwk_fields : List (Text × Setter Jwk)
jwk_fields =
    (codes "kty", λ j k. let (t, fits) = set_text j k.kty in (record k { kty = t }, fits))
    ∷ (codes "crv", λ j k. let (t, fits) = set_text j k.crv in (record k { crv = t }, fits))
    ∷ (codes "alg", λ j k. let (t, fits) = set_text j k.alg in (record k { alg = t }, fits))
    ∷ (codes "use", λ j k. let (t, fits) = set_text j k.usage in (record k { usage = t }, fits))
    ∷ (codes "kid", λ j k. let (t, fits) = set_text j k.kid in (record k { kid = t }, fits))
    ∷ (codes "x", λ j k. let (t, fits) = set_text j k.x in (record k { x = t }, fits))
    ∷ (codes "y", λ j k. let (t, fits) = set_text j k.y in (record k { y = t }, fits))
    ∷ []

-- `jwkSet` has the one member `keys`.
unfoldable pub set_jwk_set : Setter (List Jwk)
unfolding set_struct set_list jwk_fields set_text
set_jwk_set = set_struct ((codes "keys", set_list (set_struct jwk_fields) blank_jwk) ∷ [])

-- `big.Int.SetBytes`: big-endian.
unfoldable pub set_bytes : Bytes → ℕ
set_bytes = foldl (λ n b. n * 256 + b) 0

-- The field and the constant of P-256.
abbrev pub p256_p : ℕ
p256_p = 0xffffffff00000001000000000000000000000000ffffffffffffffffffffffff

abbrev pub p256_b : ℕ
p256_b = 0x5ac635d8aa3a93e7b3ebbd55769886bc651d06b0cc53b0f63bce3c3e27d2604b

-- `IsOnCurve`: both coordinates are of the field, and y² = x³ - 3x + b.
unfoldable pub is_on_curve : ℕ → ℕ → Bool
is_on_curve x y =
    ltb x p256_p
    && ltb y p256_p
    && (y * y) % p256_p == (x * x * x + (p256_p - 3) * x + p256_b) % p256_p

abbrev corrupt : Text
corrupt = codes "illegal base64 data"

-- The point, if it is on the curve.
unfoldable pub point : ℕ → ℕ → Result PublicKey
unfolding is_on_curve
point x y =
    if is_on_curve x y
    then ok (record { x = x; y = y })
    else err (plain (codes "public key not on P-256 curve"))

abbrev pub coordinates : Option Bytes → Option Bytes → Result PublicKey
coordinates none y = err (wrap (codes "x: ") (foreign corrupt))
coordinates (some x) none = err (wrap (codes "y: ") (foreign corrupt))
coordinates (some x) (some y) = point (set_bytes x) (set_bytes y)

unfoldable pub jwk_to_ecdsa : Jwk → Result PublicKey
unfolding point set_bytes
jwk_to_ecdsa k = coordinates (base64_decode k.x) (base64_decode k.y)

-- A map from key ids to keys.
abbrev pub Keys : Type 0
Keys = List (Text × PublicKey)

unfoldable pub get_key : Text → Keys → Option PublicKey
get_key kid [] = none
get_key kid ((j, k) ∷ m) = if same j kid then some k else get_key kid m

-- out[kid] = pk
unfoldable pub put_key : Text → PublicKey → Keys → Keys
put_key kid pk [] = (kid, pk) ∷ []
put_key kid pk ((j, k) ∷ m) = if same j kid then (kid, pk) ∷ m else (j, k) ∷ put_key kid pk m

-- Kty is "EC" and Crv is "P-256".
unfoldable pub is_usable : Jwk → Bool
is_usable k = same k.kty (codes "EC") && same k.crv (codes "P-256")

abbrev pub nonempty : Keys → Result Keys
nonempty [] = err (plain (codes "ztxbas: JWKS has no usable P-256 keys"))
nonempty (k ∷ ks) = ok (k ∷ ks)

abbrev pub then_nonempty : Result Keys → Result Keys
then_nonempty (err e) = err e
then_nonempty (ok out) = nonempty out

module _ (env : Env) where
  -- The loop: a key that is not usable is skipped, and one that cannot be decoded ends it.
  unfoldable pub collect : List Jwk → Keys → Result Keys
  collect [] out = ok out
  collect (k ∷ ks) out = elim (is_usable k) [
    | false ↦ collect ks out
    | true ↦ elim (jwk_to_ecdsa k) [
      | err e ↦ err (wrap (codes "ztxbas: decode key " ++ env.quote k.kid ++ codes ": ") e)
      | ok pk ↦ collect ks (put_key k.kid pk out)
    ]
  ]

  unfoldable pub keys_of : List Jwk → Result Keys
  keys_of ks = then_nonempty (collect ks [])
