-- ===== src/Token/Signed.antt =====
-- The signature of a token.
use ztxbas.Base.{
  ◌≡◌, ◌↔◌, true, Bool, ◌∷◌, ◌++◌, Option, none, some, arith, if◌then◌else◌, length, take, drop,
  ◌==◌, ==_iff,
}
use ztxbas.Base.Text.{Text, Bytes}
use ztxbas.Go.Encoding.{base64_decode}
use ztxbas.Errors.{Err, Result, ok, err}
use ztxbas.Errors.Steps.{with_result_iff}
use ztxbas.Runtime.{Env, PublicKey}
use ztxbas.Jwks.{set_bytes}
use ztxbas.Token.{Claims, decoded, read_claims, check_signature, read_signed}

decoded_iff :
    (prefix : Text) (o : Option Bytes) (b : Bytes) → (decoded prefix o ≡ ok b) ↔ (o ≡ some b)
decoded_iff prefix none b = ground arith
decoded_iff prefix (some x) b = ground arith

two_tests :
    (x y : Bool) (e₁ e₂ : Err)
    → (◌≡◌ {A = Result (Unit {0})} (if x then if y then ok tt else err e₁ else err e₂) (ok tt))
      ↔ ((x ≡ true) × (y ≡ true))
two_tests x y e₁ e₂ = ground arith

module _ (env : Env) where
  -- The third part is a signature of the first two under the key: 64 bytes in base64, r and s.
  pub record IsSigned (key : PublicKey) (header payload sig : Text) : Type 0 where
    pub bytes : Bytes
    pub is_base64 : base64_decode sig ≡ some bytes
    pub is_64 : length bytes ≡ 64
    pub is_valid :
        env.ecdsa_verify key
          (env.sha256 (header ++ b'.' ∷ payload))
          (set_bytes (take 32 bytes))
          (set_bytes (drop 32 bytes))
        ≡ true

  pub check_signature_iff :
      (key : PublicKey) (header payload : Text) (b : Bytes)
      → (check_signature env key header payload b ≡ ok tt) ↔ (
          (length b ≡ 64)
          × (env.ecdsa_verify key
                (env.sha256 (header ++ b'.' ∷ payload))
                (set_bytes (take 32 b))
                (set_bytes (drop 32 b))
              ≡ true))
  unfolding check_signature
  check_signature_iff key header payload b =
      let t =
        two_tests (length b == 64)
          (env.ecdsa_verify key (env.sha256 (header ++ b'.' ∷ payload)) (set_bytes (take 32 b))
            (set_bytes (drop 32 b)))
          _ _ in
      let n = ==_iff (length b) 64 in
      ((λ h. let (p, q) = t.0 h in (n.0 p, q)), λ (p, q). t.1 (n.1 p, q))

  pub read_signed_iff :
      (key : PublicKey) (header payload sig : Text) (c : Claims)
      → (read_signed env key header payload sig ≡ ok c)
        ↔ (IsSigned key header payload sig × (read_claims env payload ≡ ok c))
  unfolding read_signed
  read_signed_iff key header payload sig c = (there, back)
    where
      there :
          read_signed env key header payload sig ≡ ok c
          → IsSigned key header payload sig × (read_claims env payload ≡ ok c)
      there h =
          let (b, got, h₁) = (with_result_iff _ _ c).0 h in
          let (u, signed, h₂) = (with_result_iff _ _ c).0 h₁ in
          let (size, valid) = (check_signature_iff key header payload b).0 signed in
          (
            record {
              bytes = b;
              is_base64 = (decoded_iff _ (base64_decode sig) b).0 got;
              is_64 = size;
              is_valid = valid;
            },
            h₂,
          )

      back :
          IsSigned key header payload sig × (read_claims env payload ≡ ok c)
          → read_signed env key header payload sig ≡ ok c
      back (s, h) = (with_result_iff _ _ c).1 (
        s.bytes,
        (decoded_iff _ (base64_decode sig) s.bytes).1 s.is_base64,
        (with_result_iff _ _ c).1
            (tt, (check_signature_iff key header payload s.bytes).1 (s.is_64, s.is_valid), h),
      )
