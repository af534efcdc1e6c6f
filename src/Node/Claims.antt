-- ===== src/Node/Claims.antt =====
-- The checks of the claims in `verify` of sdk-node/src/verify.ts. Its numbers are doubles: the sums here
-- are those of the integers, which they are up to 2^53.
use ztxbas.Base.{Bool, false, ◌&&◌, not, Option, none, some, if◌then◌else◌}
use ztxbas.Base.Int.{ℤ, pos, ◌+ℤ◌, ltb_ℤ, is_zero}
use ztxbas.Base.Text.{Text, same, is_empty}

abbrev pub clock_skew_s : ℤ
clock_skew_s = pos 30

-- The members of the payload that are looked at.
pub record Payload : Type 0 where
  pub iss : Option Text
  pub iat : Option ℤ
  pub exp : Option ℤ

pub data Refusal : Type 0 where
  expired early wrong_issuer : Refusal

-- `claims.exp && now > claims.exp + CLOCK_SKEW_S`: no time, and the time 0, are false.
abbrev pub is_expired : ℤ → Option ℤ → Bool
is_expired now none = false
is_expired now (some exp) = not (is_zero exp) && ltb_ℤ (exp +ℤ clock_skew_s) now

abbrev pub is_early : ℤ → Option ℤ → Bool
is_early now none = false
is_early now (some iat) = not (is_zero iat) && ltb_ℤ (now +ℤ clock_skew_s) iat

abbrev pub has_issuer : Text → Option Text → Bool
has_issuer expected none = false
has_issuer expected (some iss) = same iss expected

unfoldable pub check_claims : Text → ℤ → Payload → Option Refusal
check_claims expected now p =
    if is_expired now p.exp
    then some expired
    else if is_early now p.iat
    then some early
    else if not (is_empty expected) && not (has_issuer expected p.iss)
    then some wrong_issuer
    else none
