-- ===== src/Python/Claims.antt =====
-- The checks of the claims in `verify` of sdk-python/ztxbas/verify.py. Its integers have no bound.
use ztxbas.Base.{Bool, false, ◌&&◌, not, Option, none, some, if◌then◌else◌}
use ztxbas.Base.Int.{ℤ, pos, ◌+ℤ◌, ltb_ℤ}
use ztxbas.Base.Text.{Text, is_empty}
use ztxbas.Node.Claims.{Payload, Refusal, expired, early, wrong_issuer, has_issuer}

abbrev pub clock_skew : ℤ
clock_skew = pos 30

-- `exp is not None and now > exp + _CLOCK_SKEW`: the time 0 is a time.
abbrev pub is_expired : ℤ → Option ℤ → Bool
is_expired now none = false
is_expired now (some exp) = ltb_ℤ (exp +ℤ clock_skew) now

abbrev pub is_early : ℤ → Option ℤ → Bool
is_early now none = false
is_early now (some iat) = ltb_ℤ (now +ℤ clock_skew) iat

unfoldable pub check_claims : Text → ℤ → Payload → Option Refusal
check_claims expected now p =
    if is_expired now p.exp
    then some expired
    else if is_early now p.iat
    then some early
    else if not (is_empty expected) && not (has_issuer expected p.iss)
    then some wrong_issuer
    else none
