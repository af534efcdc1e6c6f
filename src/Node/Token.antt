-- ===== src/Node/Token.antt =====
-- `verify` of sdk-node/src/verify.ts, from the token to the claims. What the call of `keyForKid` that it
-- awaits is settled with is an argument, as is the time after it; the call is in Coalesce.
pub mod Steps
use ztxbas.Base.{
  ℕ, ◌/◌, Bool, true, false, ◌&&◌, not, List, [], ◌∷◌, ◌++◌, Option, none, some, if◌then◌else◌,
  length,
}
use ztxbas.Base.Int.{ℤ, pos}
use ztxbas.Base.Result.{Outcome, done, fault}
use ztxbas.Base.Text.{Text, Bytes, codes, is_empty}
use ztxbas.Go.Strings.{split}
use ztxbas.Go.Strings.Decimal.{format_int}
use ztxbas.Go.Json.{Json, null, bool, num, str, arr, obj, Members, end}
use ztxbas.Runtime.{PublicKey}
use ztxbas.Objects.{get_member, is_text}
use ztxbas.Node.Claims.{is_expired, is_early}
use ztxbas.Node.Coalesce.{Answer, found, Failure}
use ztxbas.Node.Coalesce as Coalesce
use ztxbas.Node.Der.{Checked, JwtVerifyError, check_raw}
use ztxbas.Node.Der as Der

-- `Buffer.from(…, 'base64url')`, which always gives bytes; `JSON.parse` of a buffer as UTF-8; the check of
-- a DER signature; `JSON.stringify` and `${…}` of a value; a literal as an integer; whether a number is not
-- zero; and the tests of `exp` and `iat` with the coercions of values that are no integers.
pub record Tools : Type 0 where
  pub from_base64url : Text → Bytes
  pub parse : Bytes → Outcome Json
  pub crypto_verify : PublicKey → Bytes → Bytes → Bool
  pub stringify : Option Json → Text
  pub to_text : Option Json → Text
  pub int_of : Text → Option ℤ
  pub is_nonzero : Text → Bool
  pub is_coerced_expired : ℤ → Json → Bool
  pub is_coerced_early : ℤ → Json → Bool

-- What `verify` throws: its own error, one of the signature's check, what `keyForKid` threw, or a
-- `TypeError` of the interpreter.
pub data Thrown : Type 0 where
  refused : Text → Thrown
  unsigned : JwtVerifyError → Thrown
  by_lookup : Failure → Thrown
  type_error : Thrown

pub data Ended {ℓ} (A : Type ℓ) : Type ℓ where
  returns : A → Ended A
  throws : Thrown → Ended A

abbrev pub then_with {ℓ κ} : {A : Type ℓ} {B : Type κ} → Ended A → (A → Ended B) → Ended B
then_with (returns a) f = f a
then_with (throws e) f = throws e

abbrev pub or_refused {ℓ} : {A : Type ℓ} → Text → Outcome A → Ended A
or_refused prefix (done a) = returns a
or_refused prefix (fault m) = throws (refused (prefix ++ m))

-- The members of a value: only `null` has no properties to ask for.
abbrev pub members_of : Json → Ended Members
members_of null = throws type_error
members_of (obj ms) = returns ms
members_of j = returns end

abbrev pub or_unsigned : Checked → Ended (Unit {0})
or_unsigned Der.passed = returns tt
or_unsigned (Der.thrown e) = throws (unsigned e)

abbrev pub key_or : Answer → Ended PublicKey
key_or (found key) = returns key
key_or (Coalesce.thrown e) = throws (by_lookup e)

module _ (tools : Tools) where
  abbrev pub read_part : Text → Text → Ended Json
  read_part prefix part = or_refused prefix (tools.parse (tools.from_base64url part))

  -- The truth of a value.
  abbrev pub is_truthy : Json → Bool
  is_truthy null = false
  is_truthy (bool b) = b
  is_truthy (num t) = tools.is_nonzero t
  is_truthy (str t) = not (is_empty t)
  is_truthy (arr js) = true
  is_truthy (obj ms) = true

  abbrev pub kid_of : Option Json → Ended Json
  kid_of none = throws (refused (codes "JWT header missing kid"))
  kid_of (some j) =
      if is_truthy j then returns j else throws (refused (codes "JWT header missing kid"))

  unfoldable pub header_kid : Members → Ended Json
  unfolding get_member
  header_kid ms =
      if is_text (codes "ES256") (get_member (codes "alg") ms)
      then kid_of (get_member (codes "kid") ms)
      else throws (
          refused (
            codes "unsupported JWT alg "
            ++ (tools.stringify (get_member (codes "alg") ms) ++ codes " (want ES256)")))

  abbrev pub number_expired : ℤ → Text → Option ℤ → Bool
  number_expired now t none = tools.is_coerced_expired now (num t)
  number_expired now t (some z) = is_expired now (some z)

  abbrev pub number_early : ℤ → Text → Option ℤ → Bool
  number_early now t none = tools.is_coerced_early now (num t)
  number_early now t (some z) = is_early now (some z)

  -- `claims.exp && now > claims.exp + CLOCK_SKEW_S`
  abbrev pub expired : ℤ → Option Json → Bool
  expired now none = false
  expired now (some (num t)) = number_expired now t (tools.int_of t)
  expired now (some j) = is_truthy j && tools.is_coerced_expired now j

  abbrev pub early : ℤ → Option Json → Bool
  early now none = false
  early now (some (num t)) = number_early now t (tools.int_of t)
  early now (some j) = is_truthy j && tools.is_coerced_early now j

  -- The checks at a time; the value itself is returned.
  unfoldable pub checked : Text → ℤ → Json → Members → Ended Json
  unfolding get_member
  checked expected now claims ms =
      if expired now (get_member (codes "exp") ms)
      then throws (
          refused (
            codes "JWT expired at "
            ++ (tools.to_text (get_member (codes "exp") ms)
                ++ (codes " (now " ++ (format_int now ++ codes ")")))))
      else if early now (get_member (codes "iat") ms)
      then throws (
          refused (
            codes "JWT iat in the future ("
            ++ (tools.to_text (get_member (codes "iat") ms)
                ++ (codes ", now " ++ (format_int now ++ codes ")")))))
      else if not (is_empty expected) && not (is_text expected (get_member (codes "iss") ms))
      then throws (
          refused (
            codes "JWT iss "
            ++ (tools.stringify (get_member (codes "iss") ms)
                ++ (codes " does not match expected " ++ tools.stringify (some (str expected))))))
      else returns claims

  module _ (expected : Text) (key_for_kid : Json → Answer) (now_ms : ℕ) where
    -- From the key on.
    unfoldable pub with_key : Text → Text → Text → PublicKey → Ended Json
    unfolding checked check_raw
    with_key header payload sig key =
        then_with
          (or_unsigned
            (check_raw tools.crypto_verify key header payload (tools.from_base64url sig)))
          (λ _. then_with (read_part (codes "decode JWT payload: ") payload) (λ claims.
            then_with (members_of claims) (checked expected (pos (now_ms / 1000)) claims)))

    unfoldable pub verify_parts : List Text → Ended Json
    unfolding with_key header_kid
    verify_parts (header ∷ payload ∷ sig ∷ []) =
        then_with (read_part (codes "decode JWT header: ") header) (λ fields.
          then_with (members_of fields) (λ ms.
            then_with (header_kid ms)
              (λ kid. then_with (key_or (key_for_kid kid)) (with_key header payload sig))))
    verify_parts parts =
        throws (
          refused
            (codes "malformed JWT: expected 3 parts, got " ++ format_int (pos (length parts))))

    unfoldable pub verify : Text → Ended Json
    unfolding verify_parts
    verify token = verify_parts (split token b'.')
