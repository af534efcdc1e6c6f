-- ===== src/Token/Refusals.antt =====
-- The errors of a verification hold no sentinel.
use ztxbas.Base.{
  refl, not, ◌&&◌, if◌then◌else◌, List, [], ◌∷◌, Option, none, some, Bool, true, false,
}
use ztxbas.Base.Int.{ℤ, is_zero, ltb_ℤ, add64}
use ztxbas.Base.Text.{Text, Bytes, is_empty, same}
use ztxbas.Go.Strings.{split}
use ztxbas.Go.Encoding.{base64_decode}
use ztxbas.Errors.{Result, ok, err, plain}
use ztxbas.Errors.Clean.{
  recast-IsClean, ok-IsClean, foreign-IsClean, IsClean, plain-IsClean, with_result-IsClean,
  if-IsClean, or_wrap-IsClean,
}
use ztxbas.Runtime.{Env, PublicKey}
use ztxbas.Verifier.{Session, key_for_kid}
use ztxbas.Verifier.Refusals.{key_for_kid-IsClean}
use ztxbas.Token.{
  clock_skew, Claims, Header, decoded, fitted, check_claims, read_header, read_claims, header_kid,
  check_signature, read_signed, check_now, with_key, with_kid, verify_parts, verify,
}

decoded-IsClean : (prefix : Text) (o : Option Bytes) → IsClean (decoded prefix o)
decoded-IsClean prefix none = foreign-IsClean prefix _
decoded-IsClean prefix (some b) = ok-IsClean _

fitted-IsClean {ℓ} : {A : Type ℓ} (prefix : Text) (p : A × Bool) → IsClean (fitted prefix p)
fitted-IsClean prefix (a, true) = ok-IsClean _
fitted-IsClean prefix (a, false) = foreign-IsClean prefix _

ladder-IsClean :
    (x y z : Bool) (c : Claims) (m₁ m₂ m₃ : Text)
    → IsClean (
        if x
        then err (plain m₁)
        else if y
        then err (plain m₂)
        else if z
        then err (plain m₃)
        else ok c)
ladder-IsClean x y z c m₁ m₂ m₃ =
    if-IsClean x _ _ (plain-IsClean m₁)
      (if-IsClean y _ _ (plain-IsClean m₂) (if-IsClean z _ _ (plain-IsClean m₃) (ok-IsClean c)))

module _ (env : Env) where
  check_claims-IsClean : (iss : Text) (now : ℤ) (c : Claims) → IsClean (check_claims env iss now c)
  unfolding check_claims
  check_claims-IsClean iss now c =
      ladder-IsClean (not (is_zero c.expires_at) && ltb_ℤ (add64 c.expires_at clock_skew) now)
        (not (is_zero c.issued_at) && ltb_ℤ (add64 now clock_skew) c.issued_at)
        (not (is_empty iss) && not (same c.issuer iss)) c _ _ _

  read_header-IsClean : (part : Text) → IsClean (read_header env part)
  unfolding read_header
  read_header-IsClean part = with_result-IsClean _ _ (decoded-IsClean _ (base64_decode part)) (λ b.
      with_result-IsClean _ _ (or_wrap-IsClean _ (env.parse_json b)) (λ j. fitted-IsClean _ _))

  read_claims-IsClean : (part : Text) → IsClean (read_claims env part)
  unfolding read_claims
  read_claims-IsClean part = with_result-IsClean _ _ (decoded-IsClean _ (base64_decode part)) (λ b.
      with_result-IsClean _ _ (or_wrap-IsClean _ (env.parse_json b)) (λ j. fitted-IsClean _ _))

  header_kid-IsClean : (h : Header) → IsClean (header_kid env h)
  unfolding header_kid
  header_kid-IsClean h =
      if-IsClean _ _ _ (if-IsClean _ _ _ (plain-IsClean _) (ok-IsClean _)) (plain-IsClean _)

  check_signature-IsClean :
      (key : PublicKey) (header payload : Text) (b : Bytes)
      → IsClean (check_signature env key header payload b)
  unfolding check_signature
  check_signature-IsClean key header payload b =
      if-IsClean _ _ _ (if-IsClean _ _ _ (ok-IsClean _) (plain-IsClean _)) (plain-IsClean _)

  read_signed-IsClean :
      (key : PublicKey) (header payload sig : Text)
      → IsClean (read_signed env key header payload sig)
  unfolding read_signed
  read_signed-IsClean key header payload sig =
      with_result-IsClean _ _ (decoded-IsClean _ (base64_decode sig)) (λ b.
        with_result-IsClean _ _ (check_signature-IsClean key header payload b)
          (λ u. read_claims-IsClean payload))

  check_now-IsClean : (r : Result Claims) (s : Session) → IsClean r → IsClean (check_now env r s).0
  unfolding check_now
  check_now-IsClean (err e) s h = h
  check_now-IsClean (ok c) (v, w) h = check_claims-IsClean v.expected_iss _ c

  with_key-IsClean :
      (header payload sig : Text) (p : Result PublicKey × Session)
      → IsClean p.0
      → IsClean (with_key env header payload sig p).0
  unfolding with_key
  with_key-IsClean header payload sig (err e, s) h = recast-IsClean (err e) e h refl
  with_key-IsClean header payload sig (ok key, s) h =
      check_now-IsClean _ s (read_signed-IsClean key header payload sig)

  with_kid-IsClean :
      (header payload sig : Text) (r : Result Text) (s : Session)
      → IsClean r
      → IsClean (with_kid env header payload sig r s).0
  unfolding with_kid
  with_kid-IsClean header payload sig (err e) s h = recast-IsClean (err e) e h refl
  with_kid-IsClean header payload sig (ok kid) s h =
      with_key-IsClean header payload sig (key_for_kid env kid s) (key_for_kid-IsClean env kid s)

  verify_parts-IsClean : (ps : List Text) (s : Session) → IsClean (verify_parts env ps s).0
  unfolding verify_parts
  verify_parts-IsClean (header ∷ payload ∷ sig ∷ []) s =
      with_kid-IsClean header payload sig _ s
        (with_result-IsClean _ _ (read_header-IsClean header) header_kid-IsClean)
  verify_parts-IsClean ps s = plain-IsClean _

  pub verify-IsClean : (token : Text) (s : Session) → IsClean (verify env token s).0
  unfolding verify
  verify-IsClean token s = verify_parts-IsClean (split token b'.') s
