-- ===== src/Jwks/Curve.antt =====
-- A key made from a JWK is a point of P-256.
use ztxbas.Base.{
  ℕ, ◌+◌, ◌-◌, ◌*◌, ◌%◌, ◌<◌, ◌≡◌, refl, true, Option, none, some, arith, ltb, ◌==◌, ◌↔◌, ◌&&◌,
}
use ztxbas.Base.Text.{Bytes}
use ztxbas.Go.Encoding.{base64_decode}
use ztxbas.Errors.{ok}
use ztxbas.Runtime.{PublicKey}
use ztxbas.Jwks.{Jwk, set_bytes, p256_p, p256_b, is_on_curve, point, coordinates, jwk_to_ecdsa}

-- The coordinates are of the field and satisfy the curve's equation.
pub record IsOnCurve (k : PublicKey) : Type 0 where
  pub x_in_field : k.x < p256_p
  pub y_in_field : k.y < p256_p
  pub equation : (k.y * k.y) % p256_p ≡ (k.x * k.x * k.x + (p256_p - 3) * k.x + p256_b) % p256_p

three_tests :
    (a b p m n : ℕ) → ((ltb a p && ltb b p && m == n) ≡ true) ↔ ((a < p) × (b < p) × (m ≡ n))
three_tests a b p m n = ground arith

is_on_curve_iff : (k : PublicKey) → (is_on_curve k.x k.y ≡ true) ↔ IsOnCurve k
unfolding is_on_curve
is_on_curve_iff k =
    let (there, back) =
      three_tests k.x k.y p256_p ((k.y * k.y) % p256_p)
        ((k.x * k.x * k.x + (p256_p - 3) * k.x + p256_b) % p256_p) in
    (
      (λ h. let (p, q, r) = there h in record { x_in_field = p; y_in_field = q; equation = r }),
      λ c. back (c.x_in_field, c.y_in_field, c.equation),
    )

point-eq-ok :
    (x y : ℕ) (pk : PublicKey)
    → point x y ≡ ok pk
    → (pk ≡ record { x = x; y = y }) × (is_on_curve x y ≡ true)
unfolding point
point-eq-ok x y pk h = ground arith

-- What `jwkToECDSA` accepts: coordinates in base64 that are a point of the curve; and the key is
-- that point.
pub record Decodes (k : Jwk) (pk : PublicKey) : Type 0 where
  pub x_bytes : Bytes
  pub y_bytes : Bytes
  pub x_text : base64_decode k.x ≡ some x_bytes
  pub y_text : base64_decode k.y ≡ some y_bytes
  pub is_point : pk ≡ record { x = set_bytes x_bytes; y = set_bytes y_bytes }
  pub on_curve : IsOnCurve pk

coordinates-eq-ok :
    (bx by : Option Bytes) (pk : PublicKey)
    → coordinates bx by ≡ ok pk
    → (x : Bytes) × (y : Bytes) × (bx ≡ some x)
      × (by ≡ some y)
      × (point (set_bytes x) (set_bytes y) ≡ ok pk)
coordinates-eq-ok none by pk h = cc
coordinates-eq-ok (some x) none pk h = cc
coordinates-eq-ok (some x) (some y) pk h = (x, y, refl, refl, h)

-- `jwkToECDSA` succeeds with a key exactly if both coordinates are base64 and the key is the
-- point that they decode to, which satisfies the equation of P-256 with coordinates in the field.
pub jwk_to_ecdsa_iff : (k : Jwk) (pk : PublicKey) → (jwk_to_ecdsa k ≡ ok pk) ↔ Decodes k pk
jwk_to_ecdsa_iff k pk = (there, back)
  where
    there : jwk_to_ecdsa k ≡ ok pk → Decodes k pk
    there h =
        let (x, y, ex, ey, e) =
          coordinates-eq-ok (base64_decode k.x) (base64_decode k.y) pk (unfold jwk_to_ecdsa in h) in
        let (same, on) = point-eq-ok (set_bytes x) (set_bytes y) pk e in
        record {
          x_bytes = x;
          y_bytes = y;
          x_text = ex;
          y_text = ey;
          is_point = same;
          on_curve = (is_on_curve_iff pk).0 (rw same on);
        }

    back : Decodes k pk → jwk_to_ecdsa k ≡ ok pk
    back d =
        unfold jwk_to_ecdsa point in
        (rw (d.x_text, d.y_text) (ground (arith, d.is_point, (is_on_curve_iff pk).1 d.on_curve)))
